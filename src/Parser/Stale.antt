-- ===== src/Parser/Stale.antt =====
-- TOO_MANY_NODES: the early return of `ParseMsg` skips `VerifyAndGetMsgCommand`.
use rpi_tcp_listener.Base.{
  ℕ, zero, suc, ◌+◌, ◌≤◌, ◌<◌, ◌≡◌, refl, ◌≡⟨◌⟩◌, ◌∎, ap, Bool, true, false, List, [], ◌∷◌, ◌++◌,
  arith, length, length-append, All, append_assoc, ltb, leb, Bool-cases, inl, inr,
}
use rpi_tcp_listener.Base.Int.{size_mod}
use rpi_tcp_listener.Base.Text.{Bytes, str_eq}
use rpi_tcp_listener.Base.Outcome.{done, >>=-eq-done, done-injective}
use rpi_tcp_listener.Parser.{
  parse_msg_in, scan_in, MsgParser, too_many_nodes, Scan, scan_step, scan, scan_start, finish,
  parse_msg, msg_max_nodes, set_cfg_name,
}
use rpi_tcp_listener.Parser.Framing.{write_nodes, IsLine, scan_line, scan_nodes, drop-past-line}

scan_late :
    (fuel : ℕ) (msg : Bytes) (s : Scan) (parsed : List Bytes)
    → scan fuel msg s ≡ done (true, parsed)
    → msg_max_nodes ≤ length parsed
unfolding scan_in
scan_late zero msg s parsed h = cc
scan_late (suc fuel) msg s parsed h = elim (Bool-cases (ltb s.msg_read_cnt (length msg))) [
  | inl more ↦ elim (Bool-cases (leb msg_max_nodes (length s.parsed))) [
    | inl full ↦ ground arith
    | inr room ↦
        let next = >>=-eq-done (scan_step msg s) (λ t. scan fuel msg t) (rw (more, room) at h) in
        scan_late fuel msg next.0 parsed next.2
  ]
  | inr over ↦ ground arith
]

finish_late :
    (p q : MsgParser) (late : Bool) (parsed : List Bytes)
    → finish p late parsed ≡ (too_many_nodes, q)
    → (late ≡ true) × (q.command ≡ p.command) × (q.parsed_masage ≡ parsed)
unfolding finish
finish_late p q true parsed h = ground arith
finish_late p q false parsed h = ground arith

-- When `ParseMsg` returns TOO_MANY_NODES it has kept at least five nodes of the new message, and
-- the command of the message before it.
pub parse_msg_late :
    (p q : MsgParser) (msg : Bytes)
    → parse_msg p msg ≡ done (too_many_nodes, q)
    → (q.command ≡ p.command) × (msg_max_nodes ≤ length q.parsed_masage)
unfolding parse_msg_in
parse_msg_late p q msg h =
    let made =
      >>=-eq-done (scan (suc (length msg)) msg scan_start) (λ r. done (finish p r.0 r.1)) h in
    let (late, kept, nodes) = finish_late p q made.0.0 made.0.1 (done-injective made.2) in
    (kept, rw nodes (scan_late (suc (length msg)) msg scan_start made.0.1 (rw (← late) made.1)))

scan_full :
    (f : ℕ) (msg : Bytes) (s : Scan)
    → s.msg_read_cnt < length msg
    → msg_max_nodes ≤ length s.parsed
    → scan (suc f) msg s ≡ done (true, s.parsed)
unfolding scan_in
scan_full f msg s more full = ground arith

-- The loop on five lines with something behind them.
scan_overlong :
    (n : Bytes) (ns : List Bytes) (rest msg : Bytes)
    → msg ≡ n ++ (b'\n' ∷ (write_nodes ns ++ rest))
    → All IsLine (n ∷ ns)
    → str_eq n set_cfg_name ≡ false
    → length ns ≡ 4
    → 0 < length rest
    → length msg < size_mod
    → scan (suc (length msg)) msg scan_start ≡ done (true, n ∷ ns)
scan_overlong n ns rest msg made (line, lines) plain count some_rest fits =
    let m = length (write_nodes ns) in
    let k = length rest in
    let size : length msg ≡ length n + suc (m + k) = omega (
      arith,
      ap length made,
      length-append {0} n (b'\n' ∷ (write_nodes ns ++ rest)),
      length-append {0} (write_nodes ns) rest,
    ) in
    let fuel : suc (length msg) ≡ length n + suc (m + suc k) = omega arith in
    scan (suc (length msg)) msg scan_start
    ≡⟨ ap (λ g. scan g msg scan_start) fuel ⟩ scan (length n + suc (m + suc k)) msg scan_start
    ≡⟨ scan_line msg fits n (m + suc k) 0 (write_nodes ns ++ rest) [] [] made line refl
        (omega arith) ⟩
      scan (m + suc k) msg
        (record { parsed = n ∷ []; node_str = []; msg_read_cnt = 0 + length n + 1 })
    ≡⟨ scan_nodes msg fits ns (suc k) (0 + length n + 1) rest n []
        (drop-past-line msg n 0 (write_nodes ns ++ rest) made) lines plain (omega arith) ⟩
      scan (suc k) msg
        (record { parsed = n ∷ ns; node_str = []; msg_read_cnt = 0 + length n + 1 + m })
    ≡⟨ scan_full k msg
        (record { parsed = n ∷ ns; node_str = []; msg_read_cnt = 0 + length n + 1 + m })
        (omega arith) (omega arith) ⟩
      done (true, n ∷ ns) ∎

-- A message of five lines, the first of which is not TCP_SET_CFG, and at least one more byte, less
-- than 2 ^ 32 bytes in all, is refused with TOO_MANY_NODES: the parser holds the five new lines
-- and the command of the message before it, also if the first line names another command.
pub parse_msg_overlong :
    (p : MsgParser) (n : Bytes) (ns : List Bytes) (c : ℕ) (rest : Bytes)
    → All IsLine (n ∷ ns)
    → str_eq n set_cfg_name ≡ false
    → length ns ≡ 4
    → length (write_nodes (n ∷ ns) ++ (c ∷ rest)) < size_mod
    → parse_msg p (write_nodes (n ∷ ns) ++ (c ∷ rest))
      ≡ done (too_many_nodes, record { parsed_masage = n ∷ ns; command = p.command })
unfolding parse_msg_in finish
parse_msg_overlong p n ns c rest lines plain count fits = rw (
  scan_overlong n ns (c ∷ rest) (write_nodes (n ∷ ns) ++ (c ∷ rest))
      (append_assoc n (b'\n' ∷ write_nodes ns) (c ∷ rest)) lines plain count (omega arith) fits,
  finish,
)
