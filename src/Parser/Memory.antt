-- ===== src/Parser/Memory.antt =====
-- `ParseMsg`, where memory behind the message may be read: a run that does not read it, does not
-- depend on it.
use rpi_tcp_listener.Base.{
  ℕ, zero, suc, ◌+◌, ◌-◌, ◌%◌, [], ◌∷◌, ◌++◌, ◌≡◌, ◌∙◌, ap, Bool, true, false, List, Option, none,
  some, length, get_elem?, ◌==◌, ltb, leb, if◌then◌else◌,
}
use rpi_tcp_listener.Base.Int.{size_mod, to_size}
use rpi_tcp_listener.Base.Text.{Bytes, atoi}
use rpi_tcp_listener.Base.Outcome.{Outcome, done, fault, bad_read, ◌>>=◌, >>=-eq-done}
use rpi_tcp_listener.Parser.{
  MsgParser, ParserStatus, Scan, char_at_in, copy_config_in, get_config_stream_in, take_config_in,
  take_char_in, scan_step_in, scan_in, scan_start, finish, node_at, wants_config, wrong_cfg_size,
  ok, msg_max_nodes, parse_msg_in, parse_msg,
}

-- The first outcome, where it is a value, is the second.
abbrev Extends {ℓ} : {A : Type ℓ} → Outcome A → Outcome A → Type ℓ
Extends {A = A} m n = (a : A) → m ≡ done a → n ≡ done a

bind-Extends {ℓ κ} :
    {A : Type ℓ} {B : Type κ} (m n : Outcome A) (f g : A → Outcome B)
    → Extends m n
    → ((a : A) → Extends (f a) (g a))
    → Extends (m >>= f) (n >>= g)
bind-Extends m n f g h k b e =
    let (a, first, later) = >>=-eq-done m f e in ap (λ o. o >>= g) (h a first) ∙ k a b later

if-Extends {ℓ} :
    {A : Type ℓ} (b : Bool) (m n m' n' : Outcome A)
    → Extends m n
    → Extends m' n'
    → Extends (if b then m else m') (if b then n else n')
if-Extends true m n m' n' h k = h
if-Extends false m n m' n' h k = k

module _ (behind : Bytes) where
  beyond-Extends :
      (b : Bool) (o : Option ℕ)
      → Extends
          (if b then done 0 else fault bad_read)
          (if b then done 0 else elim o [ some c ↦ done c | none ↦ fault bad_read ])
  beyond-Extends true o a e = e
  beyond-Extends false o a e = cc

  found-Extends :
      (o : Option ℕ) (m n : Outcome ℕ)
      → Extends m n
      → Extends (elim o [ some c ↦ done c | none ↦ m ]) (elim o [ some c ↦ done c | none ↦ n ])
  found-Extends (some c) m n h a e = e
  found-Extends none m n h a e = h a e

  char-Extends : (msg : Bytes) (i : ℕ) → Extends (char_at_in [] msg i) (char_at_in behind msg i)
  unfolding char_at_in
  char-Extends msg i =
      let next = get_elem? behind (i - length msg - 1) in
      found-Extends (get_elem? msg i) (if i == length msg then done 0 else fault bad_read)
        (if i == length msg then done 0 else elim next [ some c ↦ done c | none ↦ fault bad_read ])
        (beyond-Extends (i == length msg) next)

  copy-Extends :
      (msg : Bytes) (i n : ℕ) → Extends (copy_config_in [] msg i n) (copy_config_in behind msg i n)
  unfolding copy_config_in
  copy-Extends msg i zero a e = e
  copy-Extends msg i (suc n) a e =
      let put : ℕ → Bytes → Outcome Bytes =
        λ c rest. done ((if c == b'\r' then b'\n' else c) ∷ rest) in
      let rest = copy_config_in [] msg (i + 1) n in
      let more = copy_config_in behind msg (i + 1) n in
      bind-Extends (char_at_in [] msg i) (char_at_in behind msg i) (λ c. rest >>= put c)
        (λ c. more >>= put c) (char-Extends msg i)
        (λ c. bind-Extends rest more (put c) (put c) (copy-Extends msg (i + 1) n) (λ r a e. e)) a e

  config-Extends :
      (msg : Bytes) (offset : ℕ) (parsed : List Bytes)
      → Extends
          (get_config_stream_in [] msg offset parsed)
          (get_config_stream_in behind msg offset parsed)
  unfolding get_config_stream_in
  config-Extends msg offset parsed =
      let size : ℕ = to_size (atoi (node_at parsed 1)) in
      let wrong : Outcome (ParserStatus × Bytes × ℕ) = done (wrong_cfg_size, [], size) in
      let put : Bytes → Outcome (ParserStatus × Bytes × ℕ) = λ stream. done (ok, stream, size) in
      let m = copy_config_in [] msg offset size in
      let n = copy_config_in behind msg offset size in
      if-Extends (leb (length msg) ((size + offset) % size_mod)) wrong wrong (m >>= put) (n >>= put)
        (λ a e. e) (bind-Extends m n put put (copy-Extends msg offset size) λ stream a e. e)

  take_config-Extends :
      (msg : Bytes) (s : Scan) → Extends (take_config_in [] msg s) (take_config_in behind msg s)
  unfolding take_config_in
  take_config-Extends msg s =
      let put : ParserStatus × Bytes × ℕ → Outcome Scan = λ r. done (record {
        parsed = s.parsed ++ (r.1 ∷ []);
        node_str = [];
        msg_read_cnt = (s.msg_read_cnt + r.2) % size_mod;
      }) in
      let m = get_config_stream_in [] msg s.msg_read_cnt s.parsed in
      let n = get_config_stream_in behind msg s.msg_read_cnt s.parsed in
      if-Extends (wants_config s.parsed) (m >>= put) (n >>= put) (done s) (done s)
        (bind-Extends m n put put (config-Extends msg s.msg_read_cnt s.parsed) λ r a e. e)
        (λ a e. e)

  take_char-Extends :
      (msg : Bytes) (s : Scan) → Extends (take_char_in [] msg s) (take_char_in behind msg s)
  unfolding take_char_in
  take_char-Extends msg s =
      let put : ℕ → Outcome Scan = λ c. done (
        if c == b'\n'
        then record {
          parsed = s.parsed ++ (s.node_str ∷ []);
          node_str = [];
          msg_read_cnt = (s.msg_read_cnt + 1) % size_mod;
        }
        else record s {
          node_str = s.node_str ++ (c ∷ []);
          msg_read_cnt = (s.msg_read_cnt + 1) % size_mod;
        }) in
      bind-Extends (char_at_in [] msg s.msg_read_cnt) (char_at_in behind msg s.msg_read_cnt) put put
        (char-Extends msg s.msg_read_cnt) λ c a e. e

  step-Extends :
      (msg : Bytes) (s : Scan) → Extends (scan_step_in [] msg s) (scan_step_in behind msg s)
  unfolding scan_step_in
  step-Extends msg s =
      bind-Extends (take_config_in [] msg s) (take_config_in behind msg s)
        (λ t. take_char_in [] msg t) (λ t. take_char_in behind msg t) (take_config-Extends msg s)
        λ t. take_char-Extends msg t

  scan-Extends :
      (f : ℕ) (msg : Bytes) (s : Scan) → Extends (scan_in [] f msg s) (scan_in behind f msg s)
  unfolding scan_in
  scan-Extends zero msg s a e = e
  scan-Extends (suc f) msg s a e =
      let m = scan_step_in [] msg s >>= λ t. scan_in [] f msg t in
      let n = scan_step_in behind msg s >>= λ t. scan_in behind f msg t in
      let full : Outcome (Bool × List Bytes) = done (true, s.parsed) in
      let over : Outcome (Bool × List Bytes) = done (false, s.parsed) in
      let last = leb msg_max_nodes (length s.parsed) in
      if-Extends (ltb s.msg_read_cnt (length msg)) (if last then full else m)
        (if last then full else n) over over
        (if-Extends last full full m n (λ a e. e)
          (bind-Extends (scan_step_in [] msg s) (scan_step_in behind msg s)
            (λ t. scan_in [] f msg t) (λ t. scan_in behind f msg t) (step-Extends msg s)
            λ t. scan-Extends f msg t))
        (λ a e. e) a e

  -- Where `ParseMsg` returns without memory behind the message, it gives the same with any.
  pub parse_msg-Extends :
      (p : MsgParser) (msg : Bytes) (r : ParserStatus × MsgParser)
      → parse_msg p msg ≡ done r
      → parse_msg_in behind p msg ≡ done r
  unfolding parse_msg_in
  parse_msg-Extends p msg =
      let put : Bool × List Bytes → Outcome (ParserStatus × MsgParser) =
        λ r. done (finish p r.0 r.1) in
      bind-Extends (scan_in [] (suc (length msg)) msg scan_start)
        (scan_in behind (suc (length msg)) msg scan_start) put put
        (scan-Extends (suc (length msg)) msg scan_start) λ r a e. e
