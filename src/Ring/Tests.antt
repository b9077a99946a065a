-- ===== src/Ring/Tests.antt =====
-- Runs of the ring on concrete inputs.
use machnet.Base.{ℕ, ◌≡◌, refl, some, none, List, [], ◌∷◌, replicate, arith}
use machnet.Ring.{Jring, jring_init, jring_get_buf_ring_size}
use machnet.Ring.Runs.{
  RingOp, RingAnswer, enqueue_bulk, enqueue_burst, dequeue_bulk, dequeue_burst, count, free_count,
  enqueued, dequeued, counted, ring_run, queue_run, queue_step, put_back, take_front,
  ring_run_refines,
}

abbrev four : Jring ℕ
four = record {
  size = 4;
  mask = 3;
  capacity = 3;
  esize = 4;
  prod_head = 0;
  prod_tail = 0;
  cons_head = 0;
  cons_tail = 0;
  slots = replicate 4 0;
}

abbrev some_ops : List (RingOp ℕ)
some_ops =
    enqueue_bulk (7 ∷ 8 ∷ [])
    ∷ enqueue_bulk (9 ∷ 10 ∷ [])
    ∷ dequeue_burst 1
    ∷ enqueue_burst (1 ∷ 2 ∷ 3 ∷ [])
    ∷ count
    ∷ dequeue_bulk 4
    ∷ dequeue_bulk 3
    ∷ free_count
    ∷ []

abbrev some_answers : List (RingAnswer ℕ)
some_answers =
    enqueued 2 1
    ∷ enqueued 0 1
    ∷ dequeued (7 ∷ []) 1
    ∷ enqueued 2 0
    ∷ counted 3
    ∷ dequeued [] 3
    ∷ dequeued (8 ∷ 1 ∷ 2 ∷ []) 0
    ∷ counted 3
    ∷ []

four_made : jring_init (replicate 4 0) 4 4 ≡ some four
unfolding jring_init
four_made = refl

ops_run : queue_run 3 some_ops [] ≡ some_answers
unfolding queue_run queue_step put_back take_front
ops_run = refl

no_ring_of_six : jring_init {A = ℕ} (replicate 6 0) 6 4 ≡ none
unfolding jring_init
no_ring_of_six = refl

size_of_eight : jring_get_buf_ring_size 4 8 ≡ some 384
unfolding jring_get_buf_ring_size
size_of_eight = refl

ring_run_refines_example : ring_run some_ops four ≡ some_answers
unfolding queue_run queue_step put_back take_front
ring_run_refines_example =
    ring_run_refines (replicate 4 0) 4 4 four some_ops (omega arith) refl (omega arith)
      (omega arith) four_made
