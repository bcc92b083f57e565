-- ===== src/Parser/Safe.antt =====
-- Memory safety of `ParseMsg` on every message that does not set the configuration.
use rpi_tcp_listener.Base.{
  ℕ, zero, suc, ◌+◌, ◌-◌, ◌<◌, ◌≡◌, refl, ◌≢◌, inl, inr, Bool, true, false, List, [], ◌∷◌, ◌++◌,
  arith, length, drop, append_assoc, append-nil, ltb, leb, ltb→lt, ◌==◌, if◌then◌else◌, Bool-cases,
  ne→==_false, ==_iff,
}
use rpi_tcp_listener.Base.Int.{size_mod}
use rpi_tcp_listener.Base.Text.{Bytes, str_eq}
use rpi_tcp_listener.Base.Outcome.{done}
use rpi_tcp_listener.Parser.{
  parse_msg_in, scan_in, scan_step_in, take_char_in, take_config_in, MsgParser, ParserStatus, Scan,
  scan_step, scan, scan_start, finish, parse_msg, msg_max_nodes, set_cfg_name, wants_config,
}
use rpi_tcp_listener.Parser.Framing.{char_at-of_drop, drop-next}

-- The bytes before the first newline.
abbrev pub first_line : Bytes → Bytes
first_line [] = []
first_line (c ∷ s) = let rest = first_line s in if c == b'\n' then [] else c ∷ rest

pub drop-cons :
    (msg : Bytes) (i : ℕ) → i < length msg → (c : ℕ) × (post : Bytes) × (drop i msg ≡ c ∷ post)
drop-cons [] i h = absurd (omega arith)
drop-cons (x ∷ msg) zero h = (x, msg, refl)
drop-cons (x ∷ msg) (suc i) h = drop-cons msg i (omega arith)

-- The first node is the first line, once it is closed; it does not ask for a configuration.
abbrev pub Reads : Bytes → List Bytes → Bytes → Bytes → Type 0
Reads first [] node rest = node ++ first_line rest ≡ first
Reads first (n ∷ ns) node rest = str_eq n set_cfg_name ≡ false

pub Reads-plain :
    (first : Bytes) (parsed : List Bytes) (node rest : Bytes)
    → Reads first parsed node rest
    → wants_config parsed ≡ false
Reads-plain first [] node rest h = refl
Reads-plain first (n ∷ ns) node rest h = ground arith

pub Reads-push :
    (first : Bytes) (parsed : List Bytes) (node rest : Bytes)
    → str_eq first set_cfg_name ≡ false
    → Reads first parsed node (b'\n' ∷ rest)
    → Reads first (parsed ++ (node ∷ [])) [] rest
Reads-push first [] node rest plain h = rw (← append-nil node, h) plain
Reads-push first (n ∷ ns) node rest plain h = h

pub Reads-join :
    (first : Bytes) (parsed : List Bytes) (node : Bytes) (c : ℕ) (rest : Bytes)
    → c ≢ b'\n'
    → Reads first parsed node (c ∷ rest)
    → Reads first parsed (node ++ (c ∷ [])) rest
Reads-join first [] node c rest other h = rw append_assoc (rw (ne→==_false c b'\n' other) at h)
Reads-join first (n ∷ ns) node c rest other h = h

module _ (msg first : Bytes) (fits : length msg < size_mod)
    (plain : str_eq first set_cfg_name ≡ false) where
  -- One round: no read out of bounds, and the cursor moves by one.
  scan_step_safe :
      (s : Scan)
      → s.msg_read_cnt < length msg
      → Reads first s.parsed s.node_str (drop s.msg_read_cnt msg)
      → (t : Scan) × (scan_step msg s ≡ done t)
        × (t.msg_read_cnt ≡ s.msg_read_cnt + 1)
        × Reads first t.parsed t.node_str (drop t.msg_read_cnt msg)
  unfolding scan_step_in take_config_in take_char_in
  scan_step_safe s h r =
      let (c, post, at) = drop-cons msg s.msg_read_cnt h in
      let w = Reads-plain first s.parsed s.node_str _ r in
      let here = char_at-of_drop msg s.msg_read_cnt c post at in
      let next = drop-next msg s.msg_read_cnt c post at in
      let r' : Reads first s.parsed s.node_str (c ∷ post) = rw at at r in
      elim (Bool-cases (c == b'\n')) [
        | inl close ↦ (
          record {
            parsed = s.parsed ++ (s.node_str ∷ []);
            node_str = [];
            msg_read_cnt = s.msg_read_cnt + 1;
          },
          ground arith,
          refl,
          rw next (
              Reads-push first s.parsed s.node_str post plain
                (rw ((==_iff c b'\n').0 close) at r')),
        )
        | inr join ↦ (
          record s { node_str = s.node_str ++ (c ∷ []); msg_read_cnt = s.msg_read_cnt + 1 },
          ground arith,
          refl,
          rw next (Reads-join first s.parsed s.node_str c post (λ e. ground arith) r'),
        )
      ]

  scan_safe :
      (fuel : ℕ) (s : Scan)
      → length msg - s.msg_read_cnt < fuel
      → Reads first s.parsed s.node_str (drop s.msg_read_cnt msg)
      → (r : Bool × List Bytes) × (scan fuel msg s ≡ done r)
  unfolding scan_in
  scan_safe zero s h r = absurd (omega arith)
  scan_safe (suc fuel) s h r = elim (Bool-cases (ltb s.msg_read_cnt (length msg))) [
    | inl more ↦
        let (t, stepped, next, r') = scan_step_safe s (ltb→lt _ _ more) r in
        let (end, ended) =
          scan_safe fuel t (omega (arith, ltb→lt s.msg_read_cnt (length msg) more)) r' in
        elim (Bool-cases (leb msg_max_nodes (length s.parsed))) [
          | inl full ↦ ((true, s.parsed), rw (more, full))
          | inr room ↦ (end, rw (more, room, stepped) ended)
        ]
    | inr over ↦ ((false, s.parsed), rw over)
  ]

-- A message of less than 2 ^ 32 bytes whose first line is not TCP_SET_CFG is parsed to the end:
-- `ParseMsg` returns, whatever the other bytes are.
pub parse_msg_safe :
    (p : MsgParser) (msg : Bytes)
    → length msg < size_mod
    → str_eq (first_line msg) set_cfg_name ≡ false
    → (r : ParserStatus × MsgParser) × (parse_msg p msg ≡ done r)
unfolding parse_msg_in
parse_msg_safe p msg fits plain =
    let (r, scanned) =
      scan_safe msg (first_line msg) fits plain (suc (length msg)) scan_start (omega arith) refl in
    (finish p r.0 r.1, rw scanned)
