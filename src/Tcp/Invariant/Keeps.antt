-- ===== src/Tcp/Invariant/Keeps.antt =====
-- The parts of the receiving side that leave the sender's fields alone.
use mathlib.Core.Path.{transport, subst, sym, refl}
use machnet.Base.{
  ap, ◌∙◌, ◌<◌, ◌^◌, true, false, if◌then◌else◌, [], ℕ, ◌≡◌, Bool, arith, add32, List,
}
use machnet.Tcp.Flow.{Env, TcpFlow, Segment, State}
use machnet.Tcp.Send.{send_ack, send_rst, send_syn, send_syn_ack}
use machnet.Tcp.Send.Window.{InWindow, IsSound}
use machnet.Tcp.Receive.{process_in_order_payload, take_payload, take_fin, take_last_fin}

-- The fields that `InWindow` is about.
pub record Sender : Type 0 where
  pub una : ℕ
  pub nxt : ℕ
  pub isn : ℕ
  pub buf : List ℕ
  pub wnd : ℕ
  pub mss : ℕ
  pub fin_sent : Bool
  pub fin_pending : Bool
  pub fin_seq : ℕ

abbrev pub sender : TcpFlow → Sender
sender f = record {
  una = f.snd_una;
  nxt = f.snd_nxt;
  isn = f.snd_isn;
  buf = f.snd_buf;
  wnd = f.snd_wnd;
  mss = f.peer_mss;
  fin_sent = f.fin_sent;
  fin_pending = f.fin_pending;
  fin_seq = f.snd_fin_seq;
}

pub sender-InWindow : (f g : TcpFlow) → sender f ≡ sender g → InWindow f → InWindow g
sender-InWindow f g s w =
    transport
      (λ i.
        IsSound (s i).una (s i).nxt (s i).buf (s i).wnd (s i).mss (s i).fin_sent (s i).fin_pending
          (s i).fin_seq)
      w

-- Before the connection stands: nothing is buffered, and `k` numbers, the SYN, were used.
pub record IsOpening (k una nxt isn : ℕ) (buf : List ℕ) (wnd peer_mss : ℕ)
    (fin_sent fin_pending : Bool) : Type 0 where
  pub isn_word : isn < 2 ^ 32
  pub at_start : una ≡ isn
  pub used : nxt ≡ add32 isn k
  pub empty : buf ≡ []
  pub window : wnd < 2 ^ 16
  pub mss : 0 < peer_mss
  pub unsent_fin : fin_sent ≡ false
  pub unwanted_fin : fin_pending ≡ false

abbrev pub Opening : ℕ → TcpFlow → Type 0
Opening k f =
    IsOpening k f.snd_una f.snd_nxt f.snd_isn f.snd_buf f.snd_wnd f.peer_mss f.fin_sent
      f.fin_pending

pub sender-Opening :
    (k : ℕ) (s : Sender) (g : TcpFlow)
    → s ≡ sender g
    → IsOpening k s.una s.nxt s.isn s.buf s.wnd s.mss s.fin_sent s.fin_pending
    → Opening k g
sender-Opening k s g e o =
    transport
      (λ i.
        IsOpening k (e i).una (e i).nxt (e i).isn (e i).buf (e i).wnd (e i).mss (e i).fin_sent
          (e i).fin_pending)
      o

Opening-used :
    (k : ℕ) (f : TcpFlow) → Opening k f → Opening 1 (record f { snd_nxt = add32 f.snd_isn 1 })
Opening-used k f o = record {
  isn_word = o.isn_word;
  at_start = o.at_start;
  used = refl;
  empty = o.empty;
  window = o.window;
  mss = o.mss;
  unsent_fin = o.unsent_fin;
  unwanted_fin = o.unwanted_fin;
}

-- An open connection: no close was asked for.
abbrev pub Open : TcpFlow → Type 0
Open f = InWindow f × (f.fin_pending ≡ false)

pub sender-Open : (f g : TcpFlow) → sender f ≡ sender g → Open f → Open g
sender-Open f g s o = (sender-InWindow f g s o.0, sym (ap (λ x. x.fin_pending) s) ∙ o.1)

-- What holds in each state.
abbrev pub SoundAt : State → TcpFlow → Type 0
SoundAt State.closed f = Unit {0}
SoundAt State.listen f = Opening 0 f
SoundAt State.syn_sent f = Opening 1 f
SoundAt State.syn_received f = Opening 1 f
SoundAt State.established f = Open f
SoundAt State.close_wait f = Open f
SoundAt State.fin_wait1 f = InWindow f
SoundAt State.fin_wait2 f = InWindow f
SoundAt State.last_ack f = InWindow f
SoundAt State.time_wait f = InWindow f

-- A connection that is open or closing has a sound sequence space, with no close requested while it
-- is open; one that is opening has sent at most its SYN.
abbrev pub Inv : TcpFlow → Type 0
Inv f = SoundAt f.state f

pub Inv-SoundAt : (s : State) (f : TcpFlow) → f.state ≡ s → SoundAt s f → Inv f
Inv-SoundAt s f e h = subst (λ t. SoundAt t f) (sym e) h

SoundAt-sender : (s : State) (f g : TcpFlow) → sender f ≡ sender g → SoundAt s f → SoundAt s g
SoundAt-sender State.closed f g e h = tt
SoundAt-sender State.listen f g e h = sender-Opening 0 (sender f) g e h
SoundAt-sender State.syn_sent f g e h = sender-Opening 1 (sender f) g e h
SoundAt-sender State.syn_received f g e h = sender-Opening 1 (sender f) g e h
SoundAt-sender State.established f g e h = sender-Open f g e h
SoundAt-sender State.close_wait f g e h = sender-Open f g e h
SoundAt-sender State.fin_wait1 f g e h = sender-InWindow f g e h
SoundAt-sender State.fin_wait2 f g e h = sender-InWindow f g e h
SoundAt-sender State.last_ack f g e h = sender-InWindow f g e h
SoundAt-sender State.time_wait f g e h = sender-InWindow f g e h

-- The invariant reads the sender's fields and the state only.
pub sender-Inv : (f g : TcpFlow) → sender f ≡ sender g → g.state ≡ f.state → Inv f → Inv g
sender-Inv f g e t h = Inv-SoundAt f.state g t (SoundAt-sender f.state f g e h)

pub Inv-if :
    (b : Bool) (f g : TcpFlow) → (b ≡ true → Inv f) → (b ≡ false → Inv g) → Inv (if b then f else g)
Inv-if true f g v w = v refl
Inv-if false f g v w = w refl

pub Inv-if_result :
    (b : Bool) (r s : Bool × TcpFlow)
    → (b ≡ true → Inv r.1)
    → (b ≡ false → Inv s.1)
    → Inv (if b then r else s).1
Inv-if_result true r s v w = v refl
Inv-if_result false r s v w = w refl

module _ (env : Env) where
  -- An ACK changes neither the sender's fields nor the state.
  pub sender-send_ack : (f : TcpFlow) → sender f ≡ sender (send_ack env f)
  unfolding send_ack
  sender-send_ack f = ground arith

  pub state-send_ack : (f : TcpFlow) → (send_ack env f).state ≡ f.state
  unfolding send_ack
  state-send_ack f = ground arith

  pub sender-process_in_order_payload :
      (p : Segment) (f : TcpFlow) → sender f ≡ sender (process_in_order_payload env p f).1
  unfolding process_in_order_payload
  sender-process_in_order_payload p f = ground arith

  pub state-process_in_order_payload :
      (p : Segment) (f : TcpFlow) → (process_in_order_payload env p f).1.state ≡ f.state
  unfolding process_in_order_payload
  state-process_in_order_payload p f = ground arith

  pub sender-take_payload : (p : Segment) (f : TcpFlow) → sender f ≡ sender (take_payload env p f)
  unfolding take_payload
  sender-take_payload p f = ground (
    arith,
    sender-process_in_order_payload p f,
    sender-send_ack (process_in_order_payload env p f).1,
  )

  pub state-take_payload : (p : Segment) (f : TcpFlow) → (take_payload env p f).state ≡ f.state
  unfolding take_payload
  state-take_payload p f = ground (
    arith,
    state-process_in_order_payload p f,
    state-send_ack (process_in_order_payload env p f).1,
  )

  pub sender-take_fin : (p : Segment) (f : TcpFlow) → sender f ≡ sender (take_fin env p f)
  unfolding take_fin
  sender-take_fin p f =
      ground (arith, sender-send_ack f, sender-send_ack (record f { rcv_nxt = add32 f.rcv_nxt 1 }))

  pub sender-take_last_fin : (p : Segment) (f : TcpFlow) → sender f ≡ sender (take_last_fin env p f)
  unfolding take_last_fin
  sender-take_last_fin p f =
      ground (arith, sender-send_ack f, sender-send_ack (record f { rcv_nxt = add32 f.rcv_nxt 1 }))

  pub sender-send_rst : (f : TcpFlow) → sender f ≡ sender (send_rst env f)
  unfolding send_rst
  sender-send_rst f = ground arith

  pub state-send_rst : (f : TcpFlow) → (send_rst env f).state ≡ f.state
  unfolding send_rst
  state-send_rst f = ground arith

  pub sender-send_syn_ack :
      (f : TcpFlow) → record (sender f) { nxt = add32 f.snd_isn 1 } ≡ sender (send_syn_ack env f)
  unfolding send_syn_ack
  sender-send_syn_ack f = ground arith

  pub sender-send_syn :
      (f : TcpFlow) → record (sender f) { nxt = add32 f.snd_isn 1 } ≡ sender (send_syn env f)
  unfolding send_syn
  sender-send_syn f = ground arith

  -- A SYN or SYN-ACK, first or repeated, uses the one number after the initial one.
  pub Opening-send_syn_ack : (k : ℕ) (f : TcpFlow) → Opening k f → Opening 1 (send_syn_ack env f)
  Opening-send_syn_ack k f o =
      sender-Opening 1 _ (send_syn_ack env f) (sender-send_syn_ack f) (Opening-used k f o)

  pub Opening-send_syn : (k : ℕ) (f : TcpFlow) → Opening k f → Opening 1 (send_syn env f)
  Opening-send_syn k f o =
      sender-Opening 1 _ (send_syn env f) (sender-send_syn f) (Opening-used k f o)
