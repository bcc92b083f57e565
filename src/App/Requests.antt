-- ===== src/App/Requests.antt =====
-- src/app_rpi_tcp_listener/rpi_tcp_listener.cpp: clients that ask the server for sounds, one after
-- the other, as the protocol of the abstract player answers them.
use rpi_tcp_listener.Base.{
  ℕ, suc, ◌<◌, ◌≡◌, refl, ◌≢◌, ◌∙◌, sym, subst, Bool, true, false, some, List, [], ◌∷◌, ◌++◌, All,
  All-append, arith, length,
}
use rpi_tcp_listener.Base.Text.{Bytes, codes}
use rpi_tcp_listener.Base.Decimal.{IsDigit, print_nat, print_nat-IsDigit}
use rpi_tcp_listener.Base.Outcome.{done}
use rpi_tcp_listener.Time.{time_get_ok, get_time}
use rpi_tcp_listener.Mp3.Types.{Io, PlayMode, stop_state, play_state}
use rpi_tcp_listener.Mp3.Abstract.{View}
use rpi_tcp_listener.Communication.{Env}
use rpi_tcp_listener.Communication.Protocol.{
  ClientRequest, wants_play, wants_stop, wants_status, wants_volume, message, IsAnswerable,
  protocol,
}
use rpi_tcp_listener.Communication.Answering.{message_short}
use rpi_tcp_listener.Tcp.{buffer_size}
use rpi_tcp_listener.App.{Turn, cmd_msg}
use rpi_tcp_listener.App.Ending.{cmd_msg-received}
use rpi_tcp_listener.App.Refine.{asks_to_stop, is_received}

-- A request, the files and devices that the player finds at it, and the time that its reply tells.
pub record Asked : Type 0 where
  pub io : Io
  pub time : Bytes
  pub request : ClientRequest

abbrev pub asked_in : Env → Asked → Env
asked_in env a = record env { io = a.io }

-- The requests, their replies, and the view of the player before and behind them. What is played
-- may come to an end between two requests.
pub data Converses (env : Env) : View → List Asked → List Bytes → View → Type 0 where
  silence : (v : View) → Converses env v [] [] v
  replies :
      {v u w : View} {rs : List Asked} {texts : List Bytes} (a : Asked) (text : Bytes)
      → protocol (asked_in env a) a.time v a.request ≡ (u, text)
      → Converses env u rs texts w
      → Converses env v (a ∷ rs) (text ∷ texts) w
  ends :
      {v w : View} {rs : List Asked} {texts : List Bytes} (file : Bytes) (mode : PlayMode)
      → v.doing ≡ play_state file mode
      → Converses env (record v { doing = stop_state }) rs texts w
      → Converses env v rs texts w

-- A client comes with this request, its message arrives whole, `GetTime` can tell the time, and
-- SIGINT or SIGTERM comes in the round, or does not.
pub record Brings (env : Env) (stops : Bool) (a : Asked) (t : Turn) : Type 0 where
  pub fd : ℕ
  pub accepted : t.round.accepted ≡ some fd
  pub reads : t.round.reads ≡ true
  pub received : t.received ≡ message a.request
  pub answerable : IsAnswerable env.sound_files a.request
  pub same_io : t.io ≡ a.io
  pub told : get_time env.clock t.now [] ≡ done (time_get_ok, a.time)
  pub signalled : asks_to_stop t.signals ≡ stops

-- The clients come one after the other, and a signal in the round of the last of them ends the
-- program, whoever waits behind it.
pub data Brought (env : Env) : List Asked → List Turn → Type 0 where
  ends_with :
      (a : Asked) (t : Turn) (ts : List Turn) → Brings env true a t → Brought env (a ∷ []) (t ∷ ts)
  goes_on :
      (a : Asked) (t : Turn) {rs : List Asked} {ts : List Turn}
      → Brings env false a t
      → Brought env rs ts
      → Brought env (a ∷ rs) (t ∷ ts)

-- No byte of a message is zero.
abbrev IsPlain : Bytes → Type 0
IsPlain = All (λ c. c ≢ 0)

digits-IsPlain : (s rest : Bytes) → All IsDigit s → IsPlain rest → IsPlain (s ++ rest)
digits-IsPlain [] rest d h = h
digits-IsPlain (c ∷ s) rest (d, ds) h = (λ e. omega (arith, d.0, e), digits-IsPlain s rest ds h)

framed-IsPlain :
    (before : Bytes) (n : ℕ) (after : Bytes)
    → IsPlain before
    → IsPlain after
    → IsPlain (before ++ (print_nat n ++ after))
framed-IsPlain before n after h k =
    All-append (λ c. c ≢ 0) before (print_nat n ++ after) h
      (digits-IsPlain (print_nat n) after (print_nat-IsDigit n) k)

message-IsPlain : (r : ClientRequest) → IsPlain (message r)
message-IsPlain (wants_play i true) =
    framed-IsPlain (codes "TCP_PLAY\n") (suc i) (codes "\nIN_LOOP\nEND\n") (ground arith)
      (ground arith)
message-IsPlain (wants_play i false) =
    framed-IsPlain (codes "TCP_PLAY\n") (suc i) (codes "\nONCE\nEND\n") (ground arith)
      (ground arith)
message-IsPlain wants_stop = ground arith
message-IsPlain wants_status = ground arith
message-IsPlain (wants_volume volume) =
    framed-IsPlain (codes "TCP_SET_VOLUME\n") volume (codes "\nEND\n") (ground arith) (ground arith)

pub message_arrives :
    (env : Env) (stops : Bool) (a : Asked) (t : Turn)
    → Brings env stops a t
    → cmd_msg t ≡ message a.request
message_arrives env stops a t b =
    cmd_msg-received t (subst IsPlain (sym b.received) (message-IsPlain a.request)) (
      subst (λ m. length m < buffer_size) (sym b.received)
        (message_short env.sound_files a.request b.answerable))
    ∙ b.received

pub is_received-Brings :
    (env : Env) (stops : Bool) (a : Asked) (t : Turn) → Brings env stops a t → is_received t ≡ true
is_received-Brings env stops a t b = rw (b.accepted, b.reads) refl
