-- ===== src/Parser/Config.antt =====
-- TCP_SET_CFG: the message that carries a configuration of an announced size.
use mathlib.Core.List.{map}
use rpi_tcp_listener.Base.{
  ℕ, suc, ◌+◌, ◌%◌, ◌≤◌, ◌<◌, ◌≡◌, refl, ◌≢◌, ap, ◌∙◌, ◌≡⟨◌⟩◌, ◌∎, inl, inr, false, List, [], ◌∷◌,
  ◌++◌, arith, length, length-append, drop, All, leb, leb→le, lt→ltb, ne→==_false, ◌==◌,
  if◌then◌else◌, Bool-cases,
}
use rpi_tcp_listener.Base.Int.{size_mod, int_max, to_size, ℤ, pos, negsuc}
use rpi_tcp_listener.Base.Text.{Bytes, codes, atoi}
use rpi_tcp_listener.Base.Decimal.{print_nat, print_nat-IsDigit, atoi-print_nat, IsDigit}
use rpi_tcp_listener.Base.Outcome.{
  Outcome, done, fault, bad_read, out_of_range, null_file, overflow, failed_assert, out_of_fuel,
}
use rpi_tcp_listener.Parser.{
  copy_config_in, get_config_stream_in, parse_msg_in, scan_in, scan_step_in, take_char_in,
  take_config_in, MsgParser, ok, tcp_set_cfg, Scan, char_at, copy_config, scan_step, scan,
  scan_start, finish, parse_msg, msg_max_nodes, set_cfg_name, msg_command_end,
  verify_and_get_msg_command,
}
use rpi_tcp_listener.Parser.Framing.{
  IsLine, scan_line, scan_done, char_at-of_drop, drop-next, drop-past, drop-past-line,
}
use rpi_tcp_listener.Parser.Total.{
  Settles, char_at-Settles, char_at_le, copy_config-Settles, copy_config_bound,
}

-- What a client sends: `length_in_bytes` is the text of the second line.
abbrev pub cfg_msg : Bytes → Bytes → Bytes
cfg_msg size rest = set_cfg_name ++ (b'\n' ∷ (size ++ (b'\n' ∷ rest)))

abbrev pub line_ending : ℕ → ℕ
line_ending c = if c == b'\r' then b'\n' else c

copy_config_lem :
    (msg cfg : Bytes) (i : ℕ) (post : Bytes)
    → drop i msg ≡ cfg ++ post
    → copy_config msg i (length cfg) ≡ done (map line_ending cfg)
unfolding copy_config_in
copy_config_lem msg [] i post at = refl
copy_config_lem msg (c ∷ cfg) i post at = rw (
  char_at-of_drop msg i c (cfg ++ post) at,
  copy_config_lem msg cfg (i + 1) post (drop-next msg i c (cfg ++ post) at),
)

-- A round that faults ends the loop.
scan_fault :
    (f : ℕ) (msg : Bytes) (s : Scan)
    → s.msg_read_cnt < length msg
    → length s.parsed < msg_max_nodes
    → scan_step msg s ≡ fault bad_read
    → scan (suc f) msg s ≡ fault bad_read
unfolding scan_in
scan_fault f msg s more room h = ground (arith, h)

abbrev asks : Bytes → List Bytes
asks size = set_cfg_name ∷ size ∷ []

-- The loop up to the configuration.
scan_head :
    (size rest : Bytes) (f : ℕ)
    → IsLine size
    → length (cfg_msg size rest) < size_mod
    → scan (length set_cfg_name + suc (length size + suc f)) (cfg_msg size rest) scan_start
      ≡ scan f
          (cfg_msg size rest)
          (record { parsed = asks size; node_str = []; msg_read_cnt = 12 + length size + 1 })
scan_head size rest f line fits =
    scan_line (cfg_msg size rest) fits set_cfg_name (length size + suc f) 0 (size ++ (b'\n' ∷ rest))
      [] [] refl (omega arith) refl (omega arith)
    ∙ scan_line (cfg_msg size rest) fits size f 12 rest (set_cfg_name ∷ []) [] refl line refl
        (omega arith)

drop-head : (size rest : Bytes) → drop (12 + length size + 1) (cfg_msg size rest) ≡ rest
drop-head size rest = drop-past-line (cfg_msg size rest) size 12 rest refl

bad_read_of {ℓ} :
    {A : Type ℓ} (m : Outcome A) → Settles m → ((a : A) → m ≡ done a → ⊥) → m ≡ fault bad_read
bad_read_of (done a) h never = absurd (never a refl)
bad_read_of (fault bad_read) h never = refl
bad_read_of (fault out_of_range) h never = absurd h
bad_read_of (fault null_file) h never = absurd h
bad_read_of (fault overflow) h never = absurd h
bad_read_of (fault failed_assert) h never = absurd h
bad_read_of (fault out_of_fuel) h never = absurd h

char_at_beyond : (msg : Bytes) (i : ℕ) → length msg < i → char_at msg i ≡ fault bad_read
char_at_beyond msg i h =
    bad_read_of (char_at msg i) (char_at-Settles msg i) λ c e. omega (arith, char_at_le msg i c e)

to_size_lt : (z : ℤ) → to_size z < size_mod
to_size_lt (pos n) = omega arith
to_size_lt (negsuc n) = omega arith

-- An announced size that the rest of the message does not hold makes the round read out of bounds.
scan_step_overrun :
    (msg size : Bytes) (i : ℕ)
    → length msg + 1 < size_mod
    → i < length msg
    → length msg < i + to_size (atoi size)
    → scan_step msg (record { parsed = asks size; node_str = []; msg_read_cnt = i })
      ≡ fault bad_read
unfolding scan_step_in take_config_in get_config_stream_in take_char_in
scan_step_overrun msg size i fits inside over =
    let k = to_size (atoi size) in
    let word = to_size_lt (atoi size) in
    elim (Bool-cases (leb (length msg) ((k + i) % size_mod))) [
      | inl past ↦
          rw (past, char_at_beyond msg ((i + k) % size_mod) (omega (arith, leb→le _ _ past)))
      | inr wraps ↦ rw (
        wraps,
        bad_read_of (copy_config msg i k) (copy_config-Settles msg i k)
            (λ c e. ground (arith, copy_config_bound msg i k c (omega arith) e)),
      )
    ]

-- TCP_SET_CFG with an announced size, as `size_t`, that is greater than what is left of the
-- message, which is at least one byte, reads memory behind the message; a negative size is such a
-- size.
pub parse_msg_overrun :
    (p : MsgParser) (size rest : Bytes)
    → IsLine size
    → length (cfg_msg size rest) + 1 < size_mod
    → 0 < length rest
    → length rest < to_size (atoi size)
    → parse_msg p (cfg_msg size rest) ≡ fault bad_read
unfolding parse_msg_in
parse_msg_overrun p size rest line fits some_rest over =
    let msg : Bytes = cfg_msg size rest in
    let f = length rest in
    let at = 12 + length size + 1 in
    let len : length msg ≡ at + length rest =
      omega (arith, length-append {0} size (b'\n' ∷ rest)) in
    let fuel : suc (length msg) ≡ length set_cfg_name + suc (length size + suc (suc f)) =
      omega arith in
    let scanned : scan (suc (length msg)) msg scan_start ≡ fault bad_read =
      scan (suc (length msg)) msg scan_start
      ≡⟨ ap (λ g. scan g msg scan_start) fuel ⟩
        scan (length set_cfg_name + suc (length size + suc (suc f))) msg scan_start
      ≡⟨ scan_head size rest (suc f) line (omega arith) ⟩
        scan (suc f) msg (record { parsed = asks size; node_str = []; msg_read_cnt = at })
      ≡⟨ scan_fault f msg (record { parsed = asks size; node_str = []; msg_read_cnt = at })
          (omega arith) (omega arith)
          (scan_step_overrun msg size at fits (omega arith) (omega arith)) ⟩
        fault bad_read ∎ in
    rw scanned

-- The round at the configuration: it becomes the third node, and the byte behind it opens the next.
scan_config :
    (f : ℕ) (msg size cfg : Bytes) (i c : ℕ) (post : Bytes)
    → length msg < size_mod
    → i + length cfg < length msg
    → drop i msg ≡ cfg ++ (c ∷ post)
    → to_size (atoi size) ≡ length cfg
    → c ≢ b'\n'
    → scan (suc f) msg (record { parsed = asks size; node_str = []; msg_read_cnt = i })
      ≡ scan f msg (record {
        parsed = set_cfg_name ∷ size ∷ map line_ending cfg ∷ [];
        node_str = c ∷ [];
        msg_read_cnt = i + length cfg + 1;
      })
unfolding scan_in scan_step_in take_config_in get_config_stream_in take_char_in
scan_config f msg size cfg i c post fits inside at announced other =
    let within : leb (length msg) ((length cfg + i) % size_mod) ≡ false = ground arith in
    let cursor : (i + length cfg) % size_mod ≡ i + length cfg = omega arith in
    let next : (i + length cfg + 1) % size_mod ≡ i + length cfg + 1 = omega arith in
    rw (
      lt→ltb i (length msg) (omega arith),
      announced,
      within,
      copy_config_lem msg cfg i (c ∷ post) at,
      cursor,
      char_at-of_drop msg (i + length cfg) c post (drop-past msg cfg i (c ∷ post) at),
      ne→==_false c b'\n' other,
      next,
    )

-- A configuration behind its announced size, and the closing END.
abbrev pub write_config : Bytes → Bytes
write_config cfg = cfg_msg (print_nat (length cfg)) (cfg ++ (msg_command_end ++ (b'\n' ∷ [])))

scan-write_config :
    (size cfg : Bytes)
    → let msg : Bytes = cfg_msg size (cfg ++ (msg_command_end ++ (b'\n' ∷ []))) in
      IsLine size
      → length msg < size_mod
      → to_size (atoi size) ≡ length cfg
      → scan (suc (length msg)) msg scan_start
        ≡ done (false, set_cfg_name ∷ size ∷ map line_ending cfg ∷ msg_command_end ∷ [])
scan-write_config size cfg line fits announced =
    let rest : Bytes = cfg ++ (msg_command_end ++ (b'\n' ∷ [])) in
    let msg : Bytes = cfg_msg size rest in
    let i = 12 + length size + 1 in
    let kept : List Bytes = set_cfg_name ∷ size ∷ map line_ending cfg ∷ [] in
    let len : length msg ≡ i + length cfg + 4 = omega (
      arith,
      length-append {0} size (b'\n' ∷ rest),
      length-append {0} cfg (msg_command_end ++ (b'\n' ∷ [])),
    ) in
    let fuel : suc (length msg)
        ≡ length set_cfg_name + suc (length size + suc (suc (2 + suc (suc (length cfg))))) =
      omega arith in
    let at = drop-head size rest in
    let behind = drop-past msg cfg i (msg_command_end ++ (b'\n' ∷ [])) at in
    let f = length cfg in
    scan (suc (length msg)) msg scan_start
    ≡⟨ ap (λ g. scan g msg scan_start) fuel ⟩
      scan (length set_cfg_name + suc (length size + suc (suc (2 + suc (suc f))))) msg scan_start
    ≡⟨ scan_head size rest (suc (2 + suc (suc f))) line fits ⟩
      scan (suc (2 + suc (suc f))) msg
        (record { parsed = asks size; node_str = []; msg_read_cnt = i })
    ≡⟨ scan_config (2 + suc (suc f)) msg size cfg i b'E' (codes "ND\n") fits (omega arith) at
        announced (omega arith) ⟩
      scan (2 + suc (suc f)) msg
        (record { parsed = kept; node_str = b'E' ∷ []; msg_read_cnt = i + length cfg + 1 })
    ≡⟨ scan_line msg fits (codes "ND") (suc f) (i + length cfg + 1) [] kept (b'E' ∷ [])
        (drop-next msg (i + length cfg) b'E' (codes "ND\n") behind) (omega arith) refl
        (omega arith) ⟩
      scan (suc f) msg (record {
        parsed = kept ++ (msg_command_end ∷ []);
        node_str = [];
        msg_read_cnt = i + length cfg + 1 + 2 + 1;
      })
    ≡⟨ scan_done f msg (kept ++ (msg_command_end ∷ [])) [] _ (omega arith) ⟩
      done (false, kept ++ (msg_command_end ∷ [])) ∎

pub digits-IsLine : (s : Bytes) → All IsDigit s → IsLine s
digits-IsLine [] h = tt
digits-IsLine (c ∷ s) (h, hs) = (λ e. omega arith, digits-IsLine s hs)

-- A configuration sent with its length and END, in a message of less than 2 ^ 31 bytes, is
-- accepted, and its text is the third line, with every carriage return read as a newline.
pub parse_msg-write_config :
    (p : MsgParser) (cfg : Bytes)
    → length (write_config cfg) ≤ int_max
    → parse_msg p (write_config cfg)
      ≡ done (
        ok,
        record {
          parsed_masage =
              set_cfg_name ∷ print_nat (length cfg) ∷ map line_ending cfg ∷ msg_command_end ∷ [];
          command = tcp_set_cfg;
        },
      )
unfolding parse_msg_in finish verify_and_get_msg_command
parse_msg-write_config p cfg fits =
    let size = print_nat (length cfg) in
    let len : length cfg ≤ int_max = omega (
      arith,
      length-append {0} size (b'\n' ∷ (cfg ++ (msg_command_end ++ (b'\n' ∷ [])))),
      length-append {0} cfg (msg_command_end ++ (b'\n' ∷ [])),
    ) in
    let announced : to_size (atoi size) ≡ length cfg =
      rw (atoi-print_nat (length cfg) len) (omega arith) in
    rw (
      scan-write_config size cfg (digits-IsLine size (print_nat-IsDigit (length cfg))) (omega arith)
        announced)
