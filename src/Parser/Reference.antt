-- ===== src/Parser/Reference.antt =====
-- `ParseMsg` against a description of it that has no cursor: the lines of a message.
use rpi_tcp_listener.Base.{
  ℕ, zero, suc, ◌+◌, ◌≤◌, ◌<◌, ◌≡◌, refl, ◌≢◌, ◌∙◌, ap, sym, inl, inr, Bool, true, false, List, [],
  ◌∷◌, ◌++◌, arith, length, length-append, drop, take, append_assoc, append-nil, leb, ◌==◌,
  if◌then◌else◌, Bool-cases, ==_iff, take-append,
}
use rpi_tcp_listener.Base.Int.{size_mod}
use rpi_tcp_listener.Base.Text.{Bytes, str_eq}
use rpi_tcp_listener.Base.Outcome.{done, ◌>>=◌}
use rpi_tcp_listener.Parser.{
  parse_msg_in, scan_in, MsgParser, ParserStatus, scan, finish, parse_msg, msg_max_nodes,
  set_cfg_name,
}
use rpi_tcp_listener.Parser.Framing.{
  drop-next, lt-length_of_drop, scan_char, scan_newline, scan_done,
}
use rpi_tcp_listener.Parser.Safe.{first_line, Reads, Reads-plain, Reads-push, Reads-join}

-- Bytes put before the first line.
abbrev pub join : Bytes → List Bytes → List Bytes
join node [] = []
join node (l ∷ ls) = (node ++ l) ∷ ls

-- The lines that a newline closes; what stands behind the last newline is dropped.
abbrev pub closed_lines : Bytes → List Bytes
closed_lines [] = []
closed_lines (c ∷ s) =
    let rest = closed_lines s in if c == b'\n' then [] ∷ rest else join (c ∷ []) rest

-- What stands behind the n-th newline.
abbrev pub behind : ℕ → Bytes → Bytes
behind zero s = s
behind (suc n) [] = []
behind (suc n) (c ∷ s) =
    let next = behind n s in let same = behind (suc n) s in if c == b'\n' then next else same

-- The lines as `ParseMsg` takes them: too many if a byte stands behind the fifth.
abbrev pub taken : Bytes → List Bytes → Bool × List Bytes
taken [] nodes = (false, nodes)
taken (c ∷ s) nodes = (true, take msg_max_nodes nodes)

-- The loop without its cursor.
abbrev walk : List Bytes → Bytes → Bytes → Bool × List Bytes
walk parsed node [] = (false, parsed)
walk parsed node (c ∷ s) =
    let closed = walk (parsed ++ (node ∷ [])) [] s in
    let joined = walk parsed (node ++ (c ∷ [])) s in
    if leb msg_max_nodes (length parsed)
    then (true, parsed)
    else if c == b'\n'
    then closed
    else joined

join-nil : (ls : List Bytes) → join [] ls ≡ ls
join-nil [] = refl
join-nil (l ∷ ls) = refl

join-join : (a b : Bytes) (ls : List Bytes) → join a (join b ls) ≡ join (a ++ b) ls
join-join a b [] = refl
join-join a b (l ∷ ls) = ap (λ x. x ∷ ls) (sym (append_assoc a b l))

take-all : (xs ys : List Bytes) → length xs ≡ msg_max_nodes → take msg_max_nodes (xs ++ ys) ≡ xs
take-all xs ys h = rw (← h) (take-append xs ys)

closes :
    (parsed : List Bytes) (node : Bytes) (ls : List Bytes)
    → (parsed ++ (node ∷ [])) ++ join [] ls ≡ parsed ++ join node ([] ∷ ls)
closes parsed node ls = rw (join-nil ls, append-nil node) (append_assoc parsed (node ∷ []) ls)

walk_lem :
    (s : Bytes) (k : ℕ) (parsed : List Bytes) (node : Bytes)
    → length parsed + k ≡ msg_max_nodes
    → walk parsed node s ≡ taken (behind k s) (parsed ++ join node (closed_lines s))
walk_lem [] zero parsed node h = ap (λ x. (false, x)) (sym (append-nil parsed))
walk_lem [] (suc k) parsed node h = ap (λ x. (false, x)) (sym (append-nil parsed))
walk_lem (c ∷ s) zero parsed node h =
    let full : leb msg_max_nodes (length parsed) ≡ true = ground (arith, h) in
    let here : length parsed ≡ msg_max_nodes = omega (arith, h) in
    rw full (ap (λ x. (true, x)) (sym (take-all parsed _ here)))
walk_lem (c ∷ s) (suc k) parsed node h =
    let room : leb msg_max_nodes (length parsed) ≡ false = ground (arith, h) in
    elim (Bool-cases (c == b'\n')) [
      | inl e ↦
          rw (room, e)
            (walk_lem s k (parsed ++ (node ∷ [])) []
                (omega (arith, length-append {0} parsed (node ∷ [])))
              ∙ ap (taken (behind k s)) (closes parsed node (closed_lines s)))
      | inr e ↦
          rw (room, e)
            (walk_lem s (suc k) parsed (node ++ (c ∷ [])) h
              ∙ ap (λ x. taken (behind (suc k) s) (parsed ++ x))
                  (sym (join-join node (c ∷ []) (closed_lines s))))
    ]

drop_end : (msg : Bytes) (i : ℕ) → drop i msg ≡ [] → length msg ≤ i
drop_end [] i h = omega arith
drop_end (x ∷ msg) zero h = cc
drop_end (x ∷ msg) (suc i) h = omega (arith, drop_end msg i h)

scan_filled :
    (msg : Bytes) (f i c : ℕ) (post : Bytes) (parsed : List Bytes) (node : Bytes)
    → drop i msg ≡ c ∷ post
    → leb msg_max_nodes (length parsed) ≡ true
    → scan (suc f) msg (record { parsed = parsed; node_str = node; msg_read_cnt = i })
      ≡ done (true, parsed)
unfolding scan_in
scan_filled msg f i c post parsed node at full = ground (arith, lt-length_of_drop msg i c post at)

module _ (msg first : Bytes) (fits : length msg < size_mod)
    (plain : str_eq first set_cfg_name ≡ false) where
  scan-walk :
      (rest : Bytes) (f i : ℕ) (parsed : List Bytes) (node : Bytes)
      → drop i msg ≡ rest
      → length rest < f
      → Reads first parsed node rest
      → scan f msg (record { parsed = parsed; node_str = node; msg_read_cnt = i })
        ≡ done (walk parsed node rest)
  scan-walk rest zero i parsed node at lt r = absurd (omega arith)
  scan-walk [] (suc f) i parsed node at lt r = scan_done f msg parsed node i (drop_end msg i at)
  scan-walk (c ∷ rest) (suc f) i parsed node at lt r =
      let w = Reads-plain first parsed node (c ∷ rest) r in
      let next = drop-next msg i c rest at in
      elim (Bool-cases (leb msg_max_nodes (length parsed))) [
        | inl full ↦ rw full (scan_filled msg f i c rest parsed node at full)
        | inr room ↦ elim (Bool-cases (c == b'\n')) [
          | inl e ↦
              let at' : drop i msg ≡ b'\n' ∷ rest = rw ((==_iff c b'\n').0 e) at at in
              let r' : Reads first parsed node (b'\n' ∷ rest) = rw ((==_iff c b'\n').0 e) at r in
              rw (room, e)
                (scan_newline msg fits f i rest parsed node at' w (ground (arith, room))
                  ∙ scan-walk rest f (i + 1) (parsed ++ (node ∷ [])) [] next (omega arith)
                      (Reads-push first parsed node rest plain r'))
          | inr e ↦
              let other : c ≢ b'\n' = λ eq. ground (arith, e, eq) in
              rw (room, e)
                (scan_char msg fits f i c rest parsed node at other w (ground (arith, room))
                  ∙ scan-walk rest f (i + 1) parsed (node ++ (c ∷ [])) next (omega arith)
                      (Reads-join first parsed node c rest other r))
        ]
      ]

-- What `ParseMsg` makes of the lines of a message.
abbrev pub parsed_as : MsgParser → Bytes → ParserStatus × MsgParser
parsed_as p msg =
    let lines = taken (behind msg_max_nodes msg) (closed_lines msg) in finish p lines.0 lines.1

-- On every message of less than 2 ^ 32 bytes whose first line is not TCP_SET_CFG, `ParseMsg`
-- returns, and does what its lines say: a message with a byte behind its fifth newline is one of
-- too many nodes, and keeps its first five lines and the old command; any other is taken apart at
-- its newlines, what stands behind the last one is dropped, and the command is that of the lines.
pub parse_msg-parsed_as :
    (p : MsgParser) (msg : Bytes)
    → length msg < size_mod
    → str_eq (first_line msg) set_cfg_name ≡ false
    → parse_msg p msg ≡ done (parsed_as p msg)
unfolding parse_msg_in
parse_msg-parsed_as p msg fits plain =
    let lines =
      scan-walk msg (first_line msg) fits plain msg (suc (length msg)) 0 [] [] refl (omega arith)
        refl
      ∙ ap done (
          walk_lem msg msg_max_nodes [] [] refl
          ∙ ap (taken (behind msg_max_nodes msg)) (join-nil (closed_lines msg))) in
    ap (λ o. o >>= λ r. done (finish p r.0 r.1)) lines
