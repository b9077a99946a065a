-- ===== src/Shm/Tests.antt =====
-- Runs of the channel on concrete inputs.
use machnet.Base.{
  ℕ, zero, suc, ◌+◌, ◌≡◌, ◌≤◌, refl, true, false, some, List, [], ◌∷◌, ◌++◌, length, replicate,
  ◌==◌, if◌then◌else◌, arith,
}
use machnet.Ring.{Jring, is_power_of_2}
use machnet.Ring.Circular.{Holds}
use machnet.Ring.Fifo.{IsFifo}
use machnet.Ring.Runs.{made_ring, made-IsFifo}
use machnet.Shm.{MachnetFlow, MachnetMsgBuf, ChannelCtx, msgbuf_magic}
use machnet.Shm.Cache.{machnet_buffers_alloc, machnet_buffers_release}
use machnet.Shm.Accounts.{occurrences, Accounts}
use machnet.Shm.Allocation.{machnet_buffers_alloc_conserves}
use machnet.Shm.Cached.{given, is_given}
use machnet.Shm.Release.{machnet_buffers_release-Accounts}
use machnet.Shm.Send.{MachnetMsgHdr, machnet_sendmsg}
use machnet.Shm.Send.Linked.{Headers}
use machnet.Shm.Send.Delivery.{Sent, machnet_sendmsg_delivers}
use machnet.Shm.Send.Chain.{Message}
use machnet.Shm.Receive.{message, failed, machnet_recvmsg, machnet_recv}
use machnet.Shm.Receive.Delivery.{machnet_recvmsg_returns}
use machnet.Shm.Roundtrip.{pass_on, machnet_recv-machnet_sendmsg}

abbrev flow : MachnetFlow
flow = record { src_ip = 1; dst_ip = 2; src_port = 3; dst_port = 4 }

abbrev empty_buf : MachnetMsgBuf
empty_buf = record {
  magic = msgbuf_magic;
  size = 132;
  syn = false;
  sg = false;
  fin = false;
  notify_delivery = false;
  flow = flow;
  msg_len = 0;
  payload = [];
  data_ofs = 128;
  next = 0;
  last = 0;
}

abbrev empty_ring : ℕ → Jring ℕ
empty_ring n = made_ring (replicate n 0) n 4

-- The buffers 3 and 4 are in the pool.
abbrev pool_ring : Jring ℕ
pool_ring = record (empty_ring 8) { prod_head = 2; prod_tail = 2; slots = 3 ∷ 4 ∷ replicate 6 0 }

-- A channel of five buffers of four bytes each, three of them in the cache.
abbrev chan : ChannelCtx
chan = record {
  buf_mss = 4;
  buf_ring = pool_ring;
  app_ring = empty_ring 4;
  machnet_ring = empty_ring 4;
  app_buffer_cache = 0 ∷ 1 ∷ 2 ∷ [];
  bufs = λ j. empty_buf;
  aborted = false;
}

abbrev five : ℕ → ℕ
five i = occurrences i (3 ∷ 4 ∷ 0 ∷ 1 ∷ 2 ∷ [])

power_4 : is_power_of_2 4 ≡ true
unfolding is_power_of_2
power_4 = refl

empty_4 : IsFifo (empty_ring 4) []
empty_4 = made-IsFifo (replicate 4 0) 4 4 (omega arith) refl (omega arith) (omega arith) power_4

pool_ring-IsFifo : IsFifo pool_ring (3 ∷ 4 ∷ [])
unfolding Holds
pool_ring-IsFifo = record {
  bits = 3;
  taken = 0;
  narrow = omega arith;
  size = refl;
  mask = refl;
  capacity = refl;
  words = (omega arith, omega arith);
  slots = refl;
  consumer = refl;
  consumer_done = refl;
  producer = refl;
  producer_done = refl;
  bound = omega arith;
  held = (refl, (refl, tt));
}

chan-Accounts : Accounts five 5 chan []
unfolding occurrences
chan-Accounts = record {
  pool = 3 ∷ 4 ∷ [];
  fifo = pool_ring-IsFifo;
  small = omega arith;
  counts = λ i. omega arith;
  whole = refl;
  room = omega arith;
  runs = refl;
}

five_once : (i : ℕ) → five i ≤ 1
unfolding occurrences
five_once i = ground arith

chan-Headers : Headers 4 (λ (j : ℕ). empty_buf)
chan-Headers = record { magic = λ j. refl; size = λ j. refl }

machnet_buffers_alloc_conserves_example :
    Accounts five 5 (machnet_buffers_alloc chan 2).1 (given (machnet_buffers_alloc chan 2).0 ++ [])
    × ((g : List ℕ) → (machnet_buffers_alloc chan 2).0 ≡ some g → length g ≡ 2)
    × (is_given (machnet_buffers_alloc chan 2).0 ≡ true)
machnet_buffers_alloc_conserves_example =
    machnet_buffers_alloc_conserves five 5 2 [] chan chan-Accounts

-- A message of six bytes in three segments, one of them empty.
abbrev six_bytes : MachnetMsgHdr
six_bytes = record {
  notify_delivery = false;
  msg_size = 6;
  flow_info = flow;
  msg_iov = (10 ∷ 11 ∷ 12 ∷ 13 ∷ []) ∷ [] ∷ (14 ∷ 15 ∷ []) ∷ [];
}

two_given : is_given (machnet_buffers_alloc chan 2).0 ≡ true
two_given = (machnet_buffers_alloc_conserves five 5 2 [] chan chan-Accounts).2

machnet_sendmsg_delivers_example :
    Sent five 5 five_once six_bytes [] [] (empty_ring 4) (machnet_sendmsg chan six_bytes)
machnet_sendmsg_delivers_example =
    machnet_sendmsg_delivers five 5 five_once chan six_bytes [] [] (omega arith) (omega arith)
      chan-Headers chan-Accounts empty_4 (omega arith) (omega arith) (omega arith) refl two_given

machnet_recv-machnet_sendmsg_example :
    (after : ChannelCtx) × (machnet_recv 8 6 (pass_on (machnet_sendmsg chan six_bytes).1)
      ≡ some (message (10 ∷ 11 ∷ 12 ∷ 13 ∷ 14 ∷ 15 ∷ []) flow, after))
    × Accounts five 5 after []
machnet_recv-machnet_sendmsg_example =
    machnet_recv-machnet_sendmsg five 5 five_once chan six_bytes [] 8 6 (omega arith) (omega arith)
      chan-Headers chan-Accounts empty_4 (omega arith) empty_4 (omega arith) (omega arith)
      (omega arith) refl two_given (omega arith) (omega arith) (omega arith)

-- Two buffers hold five bytes.
abbrev two_buffers : ℕ → MachnetMsgBuf
two_buffers j =
    if j == 0
    then record empty_buf { sg = true; next = 1; payload = 10 ∷ 11 ∷ 12 ∷ 13 ∷ [] }
    else record empty_buf { payload = 14 ∷ [] }

abbrev one_queued : Jring ℕ
one_queued = record (empty_ring 4) { prod_head = 1; prod_tail = 1 }

one_queued-IsFifo : IsFifo one_queued (0 ∷ [])
unfolding Holds
one_queued-IsFifo = record {
  bits = 2;
  taken = 0;
  narrow = omega arith;
  size = refl;
  mask = refl;
  capacity = refl;
  words = (omega arith, omega arith);
  slots = refl;
  consumer = refl;
  consumer_done = refl;
  producer = refl;
  producer_done = refl;
  bound = omega arith;
  held = (refl, tt);
}

abbrev receiving : ChannelCtx
receiving = record chan { machnet_ring = one_queued; app_buffer_cache = 2 ∷ []; bufs = two_buffers }

receiving-Accounts : Accounts five 5 receiving (0 ∷ 1 ∷ [])
unfolding occurrences
receiving-Accounts = record {
  pool = 3 ∷ 4 ∷ [];
  fifo = pool_ring-IsFifo;
  small = omega arith;
  counts = λ i. omega arith;
  whole = refl;
  room = omega arith;
  runs = refl;
}

two_buffers-Message : Message two_buffers 0 (1 ∷ []) (10 ∷ 11 ∷ 12 ∷ 13 ∷ 14 ∷ [])
unfolding Message
two_buffers-Message = (14 ∷ [], refl, refl, refl, omega arith, (refl, refl, omega arith))

-- The segments have room for four bytes.
machnet_recvmsg_returns_example :
    (after : ChannelCtx) × (machnet_recvmsg 9 (3 ∷ 0 ∷ 1 ∷ []) receiving ≡ some (failed, after))
    × Accounts five 5 after []
machnet_recvmsg_returns_example =
    machnet_recvmsg_returns five 5 [] receiving (3 ∷ 0 ∷ 1 ∷ []) 9 0 (1 ∷ [])
      (10 ∷ 11 ∷ 12 ∷ 13 ∷ 14 ∷ []) [] one_queued-IsFifo two_buffers-Message receiving-Accounts
      (omega arith) (omega arith, (omega arith, (omega arith, tt)))

abbrev from : ℕ → ℕ → List ℕ
from zero i = []
from (suc n) i = i ∷ from n (suc i)

-- The cache is full, and one buffer is with the caller.
abbrev full : ChannelCtx
full = record chan { buf_ring = empty_ring 128; app_buffer_cache = from 64 0 }

power_128 : is_power_of_2 128 ≡ true
unfolding is_power_of_2
power_128 = refl

abbrev sixty_five : ℕ → ℕ
sixty_five i = 0 + occurrences i (from 64 0) + occurrences i (64 ∷ [])

full-Accounts : Accounts sixty_five 65 full (64 ∷ [])
unfolding occurrences
full-Accounts = record {
  pool = [];
  fifo =
      made-IsFifo (replicate 128 0) 128 4 (omega arith) refl (omega arith) (omega arith) power_128;
  small = omega arith;
  counts = λ i. refl;
  whole = refl;
  room = omega arith;
  runs = refl;
}

machnet_buffers_release-Accounts_example :
    Accounts sixty_five 65 (machnet_buffers_release full (64 ∷ [])) []
machnet_buffers_release-Accounts_example =
    machnet_buffers_release-Accounts sixty_five 65 (64 ∷ []) [] full full-Accounts
