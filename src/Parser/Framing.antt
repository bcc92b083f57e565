-- ===== src/Parser/Framing.antt =====
-- Framing: what the loop of `ParseMsg` makes of a message that is written line by line.
use mathlib.Core.Path.{ap₂}
use native.Mathlib.Nat.{suc-add, zero-add, add-zero}
use rpi_tcp_listener.Base.{
  ℕ, zero, suc, ◌+◌, ◌≤◌, ◌<◌, ◌≡◌, refl, ◌≢◌, ap, ◌≡⟨◌⟩◌, ◌∎, false, List, [], ◌∷◌, ◌++◌, some,
  arith, length, length-append, get_elem?, append_assoc, append-nil, All, drop,
}
use rpi_tcp_listener.Base.Int.{size_mod}
use rpi_tcp_listener.Base.Text.{Bytes, str_eq}
use rpi_tcp_listener.Base.Outcome.{done}
use rpi_tcp_listener.Parser.{
  char_at_in, scan_in, scan_step_in, take_char_in, take_config_in, char_at, scan, scan_start,
  set_cfg_name, wants_config, msg_max_nodes,
}

-- Each node closed by a newline: how a client writes a command.
abbrev pub write_nodes : List Bytes → Bytes
write_nodes [] = []
write_nodes (n ∷ ns) = n ++ (b'\n' ∷ write_nodes ns)

abbrev pub IsLine : Bytes → Type 0
IsLine = All (λ c. c ≢ b'\n')

-- What stands at and behind the cursor.
get_elem?-of_drop :
    (msg : Bytes) (i c : ℕ) (post : Bytes) → drop i msg ≡ c ∷ post → get_elem? msg i ≡ some c
get_elem?-of_drop [] zero c post h = cc
get_elem?-of_drop [] (suc i) c post h = cc
get_elem?-of_drop (x ∷ msg) zero c post h = cc
get_elem?-of_drop (x ∷ msg) (suc i) c post h = get_elem?-of_drop msg i c post h

pub drop-next :
    (msg : Bytes) (i c : ℕ) (post : Bytes) → drop i msg ≡ c ∷ post → drop (i + 1) msg ≡ post
drop-next [] zero c post h = cc
drop-next [] (suc i) c post h = cc
drop-next (x ∷ msg) zero c post h = cc
drop-next (x ∷ msg) (suc i) c post h = rw suc-add (drop-next msg i c post h)

pub drop-past :
    (msg xs : Bytes) (i : ℕ) (post : Bytes)
    → drop i msg ≡ xs ++ post
    → drop (i + length xs) msg ≡ post
drop-past msg [] i post h = rw add-zero h
drop-past msg (x ∷ xs) i post h =
    rw (← add_suc_left i (length xs))
      (drop-past msg xs (i + 1) post (drop-next msg i x (xs ++ post) h))
  where
    add_suc_left : (a b : ℕ) → a + 1 + b ≡ a + suc b
    add_suc_left a b = omega arith

pub drop-past-line :
    (msg n : Bytes) (i : ℕ) (post : Bytes)
    → drop i msg ≡ n ++ (b'\n' ∷ post)
    → drop (i + length n + 1) msg ≡ post
drop-past-line msg n i post h =
    drop-next msg (i + length n) b'\n' post (drop-past msg n i (b'\n' ∷ post) h)

pub lt-length_of_drop :
    (msg : Bytes) (i c : ℕ) (post : Bytes) → drop i msg ≡ c ∷ post → i < length msg
lt-length_of_drop [] zero c post h = cc
lt-length_of_drop [] (suc i) c post h = cc
lt-length_of_drop (x ∷ msg) zero c post h = omega arith
lt-length_of_drop (x ∷ msg) (suc i) c post h = omega (arith, lt-length_of_drop msg i c post h)

pub char_at-of_drop :
    (msg : Bytes) (i c : ℕ) (post : Bytes) → drop i msg ≡ c ∷ post → char_at msg i ≡ done c
unfolding char_at_in
char_at-of_drop msg i c post h = rw (get_elem?-of_drop msg i c post h, char_at_in)

module _ (msg : Bytes) (fits : length msg < size_mod) where
  -- A byte of a line joins the node.
  pub scan_char :
      (f i c : ℕ) (post : Bytes) (parsed : List Bytes) (node : Bytes)
      → drop i msg ≡ c ∷ post
      → c ≢ b'\n'
      → wants_config parsed ≡ false
      → length parsed < msg_max_nodes
      → scan (suc f) msg (record { parsed = parsed; node_str = node; msg_read_cnt = i })
        ≡ scan f msg (record { parsed = parsed; node_str = node ++ (c ∷ []); msg_read_cnt = i + 1 })
  unfolding scan_in scan_step_in take_config_in take_char_in
  scan_char f i c post parsed node at other plain room =
      ground (arith, char_at-of_drop msg i c post at, lt-length_of_drop msg i c post at)

  -- A newline closes it.
  pub scan_newline :
      (f i : ℕ) (post : Bytes) (parsed : List Bytes) (node : Bytes)
      → drop i msg ≡ b'\n' ∷ post
      → wants_config parsed ≡ false
      → length parsed < msg_max_nodes
      → scan (suc f) msg (record { parsed = parsed; node_str = node; msg_read_cnt = i })
        ≡ scan f msg
            (record { parsed = parsed ++ (node ∷ []); node_str = []; msg_read_cnt = i + 1 })
  unfolding scan_in scan_step_in take_config_in take_char_in
  scan_newline f i post parsed node at plain room =
      ground (arith, char_at-of_drop msg i b'\n' post at, lt-length_of_drop msg i b'\n' post at)

  -- A whole line becomes one node.
  pub scan_line :
      (n : Bytes) (f i : ℕ) (post : Bytes) (parsed : List Bytes) (node : Bytes)
      → drop i msg ≡ n ++ (b'\n' ∷ post)
      → IsLine n
      → wants_config parsed ≡ false
      → length parsed < msg_max_nodes
      → scan (length n + suc f) msg (record { parsed = parsed; node_str = node; msg_read_cnt = i })
        ≡ scan f msg (record {
          parsed = parsed ++ ((node ++ n) ∷ []);
          node_str = [];
          msg_read_cnt = i + length n + 1;
        })
  scan_line [] f i post parsed node at line plain room =
      rw (append-nil, zero-add, add-zero) (scan_newline f i post parsed node at plain room)
  scan_line (c ∷ n) f i post parsed node at (other, line) plain room =
      rw
        (
          suc-add,
          scan_char (length n + suc f) i c (n ++ (b'\n' ∷ post)) parsed node at other plain room,
          scan_line n f (i + 1) post parsed (node ++ (c ∷ [])) (drop-next msg i c _ at) line plain
              room,
          append_assoc node (c ∷ []) n,
        )
        (ap
          (λ k. scan f msg (record {
            parsed = parsed ++ ((node ++ (c ∷ n)) ∷ []);
            node_str = [];
            msg_read_cnt = k;
          }))
          (omega arith))

  -- Lines behind a first node that does not ask for a configuration.
  pub scan_nodes :
      (ns : List Bytes) (f i : ℕ) (post : Bytes) (first : Bytes) (parsed : List Bytes)
      → drop i msg ≡ write_nodes ns ++ post
      → All IsLine ns
      → str_eq first set_cfg_name ≡ false
      → length parsed + length ns < msg_max_nodes
      → scan
          (length (write_nodes ns) + f)
          msg
          (record { parsed = first ∷ parsed; node_str = []; msg_read_cnt = i })
        ≡ scan f msg (record {
          parsed = first ∷ (parsed ++ ns);
          node_str = [];
          msg_read_cnt = i + length (write_nodes ns);
        })
  scan_nodes [] f i post first parsed at lines plain room = rw (append-nil, zero-add, add-zero)
  scan_nodes (n ∷ ns) f i post first parsed at (line, lines) plain room =
      let k = i + length n + 1 in
      let m = length (write_nodes ns) in
      scan (length (write_nodes (n ∷ ns)) + f) msg
        (record { parsed = first ∷ parsed; node_str = []; msg_read_cnt = i })
      ≡⟨ ap (λ g. scan g msg (record { parsed = first ∷ parsed; node_str = []; msg_read_cnt = i }))
          (omega (arith, length-append {0} n (b'\n' ∷ write_nodes ns))) ⟩
        scan (length n + suc (m + f)) msg
          (record { parsed = first ∷ parsed; node_str = []; msg_read_cnt = i })
      ≡⟨ scan_line n (m + f) i (write_nodes ns ++ post) (first ∷ parsed) []
          (rw (← append_assoc n (b'\n' ∷ write_nodes ns) post) at) line (ground arith)
          (ground arith) ⟩
        scan (m + f) msg
          (record { parsed = first ∷ (parsed ++ (n ∷ [])); node_str = []; msg_read_cnt = k })
      ≡⟨ scan_nodes ns f k post first (parsed ++ (n ∷ []))
          (drop-past-line msg n i (write_nodes ns ++ post)
            (rw (← append_assoc n (b'\n' ∷ write_nodes ns) post) at))
          lines plain (ground (arith, length-append {0} parsed (n ∷ []))) ⟩
        scan f msg (record {
          parsed = first ∷ ((parsed ++ (n ∷ [])) ++ ns);
          node_str = [];
          msg_read_cnt = k + m;
        })
      ≡⟨ ap₂ (λ q c. scan f msg (record { parsed = first ∷ q; node_str = []; msg_read_cnt = c }))
          (append_assoc parsed (n ∷ []) ns)
          (omega (arith, length-append {0} n (b'\n' ∷ write_nodes ns))) ⟩
        scan f msg
          (record {
            parsed = first ∷ (parsed ++ (n ∷ ns));
            node_str = [];
            msg_read_cnt = i + length (write_nodes (n ∷ ns));
          }) ∎

pub scan_done :
    (f : ℕ) (msg : Bytes) (parsed : List Bytes) (node : Bytes) (i : ℕ)
    → length msg ≤ i
    → scan (suc f) msg (record { parsed = parsed; node_str = node; msg_read_cnt = i })
      ≡ done (false, parsed)
unfolding scan_in
scan_done f msg parsed node i h = ground arith

-- At most five lines, the first not asking for a configuration, are taken apart whole.
pub scan-written :
    (n : Bytes) (ns : List Bytes)
    → All IsLine (n ∷ ns)
    → str_eq n set_cfg_name ≡ false
    → length ns < msg_max_nodes
    → length (write_nodes (n ∷ ns)) < size_mod
    → scan (suc (length (write_nodes (n ∷ ns)))) (write_nodes (n ∷ ns)) scan_start
      ≡ done (false, n ∷ ns)
scan-written n ns (line, lines) plain room fits =
    let msg : Bytes = write_nodes (n ∷ ns) in
    let m = length (write_nodes ns) in
    scan (suc (length msg)) msg scan_start
    ≡⟨ ap (λ g. scan g msg scan_start)
        (omega (arith, length-append {0} n (b'\n' ∷ write_nodes ns))) ⟩
      scan (length n + suc (m + 1)) msg scan_start
    ≡⟨ scan_line msg fits n (m + 1) 0 (write_nodes ns) [] [] refl line refl (omega arith) ⟩
      scan (m + 1) msg (record { parsed = n ∷ []; node_str = []; msg_read_cnt = 0 + length n + 1 })
    ≡⟨ scan_nodes msg fits ns 1 (0 + length n + 1) [] n []
        (rw append-nil (drop-past-line msg n 0 (write_nodes ns) refl)) lines plain (omega arith) ⟩
      scan 1 msg (record { parsed = n ∷ ns; node_str = []; msg_read_cnt = 0 + length n + 1 + m })
    ≡⟨ scan_done 0 msg (n ∷ ns) [] _ (omega (arith, length-append {0} n (b'\n' ∷ write_nodes ns))) ⟩
      done (false, n ∷ ns) ∎
