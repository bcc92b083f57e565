-- ===== src/Parser/Total.antt =====
-- Termination and memory safety of `ParseMsg`.
use rpi_tcp_listener.Base.{
  ℕ, zero, suc, ◌+◌, ◌-◌, ◌%◌, ◌≤◌, ◌<◌, ◌≡◌, refl, ap, inl, inr, List, [], ◌∷◌, arith, length,
  get_elem?, ltb, leb, leb→le, ltb→lt, Bool-cases, Option-cases, some,
}
use rpi_tcp_listener.Base.Int.{size_mod, to_size}
use rpi_tcp_listener.Base.Text.{Bytes, atoi}
use rpi_tcp_listener.Base.Outcome.{
  Outcome, done, fault, bad_read, out_of_fuel, out_of_range, null_file, overflow, failed_assert,
  ◌>>=◌, >>=-eq-done, done-injective,
}
use rpi_tcp_listener.Parser.{
  char_at_in, copy_config_in, get_config_stream_in, parse_msg_in, scan_in, scan_step_in,
  take_char_in, take_config_in, MsgParser, ParserStatus, wrong_cfg_size, Scan, char_at, copy_config,
  get_config_stream, take_config, take_char, scan_step, scan, scan_start, parse_msg, msg_max_nodes,
  node_at, wants_config,
}

-- An outcome that is a value or a read out of bounds: no other fault.
abbrev pub Settles {ℓ} : {A : Type ℓ} → Outcome A → Type 0
Settles (done a) = Unit {0}
Settles (fault bad_read) = Unit {0}
Settles (fault out_of_range) = ⊥
Settles (fault null_file) = ⊥
Settles (fault overflow) = ⊥
Settles (fault failed_assert) = ⊥
Settles (fault out_of_fuel) = ⊥

>>=-Settles {ℓ κ} :
    {A : Type ℓ} {B : Type κ} (m : Outcome A) (f : A → Outcome B)
    → Settles m
    → ((a : A) → m ≡ done a → Settles (f a))
    → Settles (m >>= f)
>>=-Settles (done a) f hm hf = hf a refl
>>=-Settles (fault bad_read) f hm hf = tt
>>=-Settles (fault out_of_range) f hm hf = absurd hm
>>=-Settles (fault null_file) f hm hf = absurd hm
>>=-Settles (fault overflow) f hm hf = absurd hm
>>=-Settles (fault failed_assert) f hm hf = absurd hm
>>=-Settles (fault out_of_fuel) f hm hf = absurd hm

get_elem?_lt : (msg : Bytes) (i c : ℕ) → get_elem? msg i ≡ some c → i < length msg
get_elem?_lt [] i c h = cc
get_elem?_lt (x ∷ msg) zero c h = omega arith
get_elem?_lt (x ∷ msg) (suc i) c h = omega (arith, get_elem?_lt msg i c h)

-- A read that succeeds is at most at the terminator.
pub char_at_le : (msg : Bytes) (i c : ℕ) → char_at msg i ≡ done c → i ≤ length msg
unfolding char_at_in
char_at_le msg i c h = elim (Option-cases (get_elem? msg i)) [
  | inl e ↦ ground arith
  | inr (d, e) ↦ omega (arith, get_elem?_lt msg i d e)
]

pub char_at-Settles : (msg : Bytes) (i : ℕ) → Settles (char_at msg i)
unfolding char_at_in
char_at-Settles msg i = ground arith

pub copy_config-Settles : (msg : Bytes) (i n : ℕ) → Settles (copy_config msg i n)
unfolding copy_config_in
copy_config-Settles msg i zero = tt
copy_config-Settles msg i (suc n) =
    >>=-Settles (char_at msg i) _ (char_at-Settles msg i)
      λ c _. >>=-Settles (copy_config msg (i + 1) n) _ (copy_config-Settles msg (i + 1) n) λ r _. tt

pub copy_config_bound :
    (msg : Bytes) (i n : ℕ) (r : Bytes)
    → i ≤ length msg + 1
    → copy_config msg i n ≡ done r
    → i + n ≤ length msg + 1
unfolding copy_config_in
copy_config_bound msg i zero r h e = omega arith
copy_config_bound msg i (suc n) r h e =
    let here = >>=-eq-done (char_at msg i) _ e in
    let rest = >>=-eq-done (copy_config msg (i + 1) n) _ here.2 in
    let below = char_at_le msg i here.0 here.1 in
    omega (arith, copy_config_bound msg (i + 1) n rest.0 (omega arith) rest.1)

module _ (msg : Bytes) (fits : length msg + 1 < size_mod) where
  -- The block for the configuration never moves the cursor back: a size that wraps around reads
  -- out of bounds first.
  get_config_stream_forward :
      (i : ℕ) (parsed : List Bytes) (r : ParserStatus × Bytes × ℕ)
      → i < length msg
      → get_config_stream msg i parsed ≡ done r
      → i ≤ (i + r.2) % size_mod
  unfolding get_config_stream_in
  get_config_stream_forward i parsed r h e =
      let size = to_size (atoi (node_at parsed 1)) in
      elim (Bool-cases (leb (length msg) ((size + i) % size_mod))) [
        | inl over ↦
            let same : (wrong_cfg_size, [], size) ≡ r = done-injective (rw over at e) in
            omega (arith, ap (λ (q : ParserStatus × Bytes × ℕ). q.2) same, leb→le _ _ over)
        | inr within ↦
            let made = >>=-eq-done (copy_config msg i size) _ (rw within at e) in
            let bound = copy_config_bound msg i size made.0 (omega arith) made.1 in
            omega (arith, bound, ap (λ (q : ParserStatus × Bytes × ℕ). q.2) (done-injective made.2))
      ]

  get_config_stream-Settles :
      (i : ℕ) (parsed : List Bytes) → Settles (get_config_stream msg i parsed)
  unfolding get_config_stream_in
  get_config_stream-Settles i parsed =
      let size = to_size (atoi (node_at parsed 1)) in
      elim (Bool-cases (leb (length msg) ((size + i) % size_mod))) [
        | inl over ↦ rw over tt
        | inr within ↦
            rw within
              (>>=-Settles (copy_config msg i size) _ (copy_config-Settles msg i size) λ r _. tt)
      ]

  take_config_forward :
      (s t : Scan)
      → s.msg_read_cnt < length msg
      → take_config msg s ≡ done t
      → s.msg_read_cnt ≤ t.msg_read_cnt
  unfolding take_config_in
  take_config_forward s t h e = elim (Bool-cases (wants_config s.parsed)) [
    | inl wants ↦
        let made = >>=-eq-done (get_config_stream msg s.msg_read_cnt s.parsed) _ (rw wants at e) in
        let forward = get_config_stream_forward s.msg_read_cnt s.parsed made.0 h made.1 in
        omega (arith, forward, ap (λ (q : Scan). q.msg_read_cnt) (done-injective made.2))
    | inr plain ↦
        let same : s ≡ t = done-injective (rw plain at e) in
        omega (arith, ap (λ (q : Scan). q.msg_read_cnt) same)
  ]

  take_char_forward : (s t : Scan) → take_char msg s ≡ done t → s.msg_read_cnt < t.msg_read_cnt
  unfolding take_char_in
  take_char_forward s t e =
      let made = >>=-eq-done (char_at msg s.msg_read_cnt) _ e in
      let below = char_at_le msg s.msg_read_cnt made.0 made.1 in ground (arith, made.2, below)

  -- Every round that returns has moved the cursor on.
  scan_step_forward :
      (s t : Scan)
      → s.msg_read_cnt < length msg
      → scan_step msg s ≡ done t
      → s.msg_read_cnt < t.msg_read_cnt
  unfolding scan_step_in
  scan_step_forward s t h e =
      let made = >>=-eq-done (take_config msg s) _ e in
      omega (arith, take_config_forward s made.0 h made.1, take_char_forward made.0 t made.2)

  scan_step-Settles : (s : Scan) → Settles (scan_step msg s)
  unfolding scan_step_in take_config_in take_char_in
  scan_step-Settles s = >>=-Settles (take_config msg s) _ config λ t _.
      >>=-Settles (char_at msg t.msg_read_cnt) _ (char_at-Settles msg t.msg_read_cnt) λ c _. tt
    where
      config : Settles (take_config msg s)
      config = elim (Bool-cases (wants_config s.parsed)) [
        | inl wants ↦ rw wants (
            >>=-Settles (get_config_stream msg s.msg_read_cnt s.parsed) _
              (get_config_stream-Settles s.msg_read_cnt s.parsed) λ r _. tt)
        | inr plain ↦ rw plain tt
      ]

  scan-Settles :
      (fuel : ℕ) (s : Scan) → length msg - s.msg_read_cnt < fuel → Settles (scan fuel msg s)
  unfolding scan_in
  scan-Settles zero s h = absurd (omega arith)
  scan-Settles (suc fuel) s h = elim (Bool-cases (ltb s.msg_read_cnt (length msg))) [
    | inl more ↦ elim (Bool-cases (leb msg_max_nodes (length s.parsed))) [
      | inl full ↦ rw (more, full) tt
      | inr room ↦
          rw (more, room)
            (>>=-Settles (scan_step msg s) _ (scan_step-Settles s) λ t e.
              let lt = ltb→lt s.msg_read_cnt (length msg) more in
              scan-Settles fuel t (omega (arith, scan_step_forward s t lt e)))
    ]
    | inr over ↦ rw over tt
  ]

-- `ParseMsg` ends on every message of less than 2 ^ 32 - 1 bytes: it returns, or it reads out of
-- bounds. (The length of the message stands for the bound on the rounds of its loop.)
pub parse_msg-Settles :
    (p : MsgParser) (msg : Bytes) → length msg + 1 < size_mod → Settles (parse_msg p msg)
unfolding parse_msg_in
parse_msg-Settles p msg fits =
    >>=-Settles (scan (suc (length msg)) msg scan_start) _
      (scan-Settles msg fits (suc (length msg)) scan_start (omega arith)) λ r _. tt
