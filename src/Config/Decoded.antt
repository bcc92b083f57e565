-- ===== src/Config/Decoded.antt =====
-- src/config_manager/config_manager/config_manager.cpp, `ParseXml`: the files in ram behind it.
use rpi_tcp_listener.Base.{
  ℕ, suc, ◌<◌, ◌≡◌, refl, ◌∙◌, Bool, true, false, Option, some, List, [], ◌∷◌, ◌++◌, arith, length,
  All, ◌==◌, if◌then◌else◌,
}
use rpi_tcp_listener.Base.Int.{size_mod}
use rpi_tcp_listener.Base.Text.{Bytes, str_eq, str_eq→eq}
use rpi_tcp_listener.Base.Outcome.{done}
use rpi_tcp_listener.Files.{Files, write}
use rpi_tcp_listener.Zip.{ok}
use rpi_tcp_listener.Zip.Swap.{swap_pairs}
use rpi_tcp_listener.Zip.RoundTrip.{zip_uncompress_ok}
use rpi_tcp_listener.Config.{
  config_ok, ConfigManager, Document, Loading, ram, add_sound, load_sounds, parse_xml, loaded,
}

abbrev pub starts_with : Bytes → Bytes → Bool
starts_with [] s = true
starts_with (c ∷ p) [] = false
starts_with (c ∷ p) (d ∷ s) = let rest = starts_with p s in if c == d then rest else false

-- A sound outside the ram directory, whose file has these bytes and whose place in ram can be
-- written.
abbrev pub IsSource : Files → (Bytes → Bytes) → Bytes → Type 0
IsSource fs content n =
    (starts_with ram n ≡ false)
    × (fs.read n ≡ some (content n))
    × (length (content n) < size_mod)
    × (fs.writable (ram ++ n) ≡ true)

abbrev pub member : Bytes → List Bytes → Bool
member x [] = false
member x (y ∷ s) = let rest = member x s in if str_eq y x then true else rest

outside : (p n q : Bytes) → starts_with p n ≡ false → str_eq (p ++ q) n ≡ false
outside [] n q h = cc
outside (c ∷ p) [] q h = refl
outside (c ∷ p) (d ∷ n) q h = ground (arith, outside p n q)

inside : (p n q : Bytes) → starts_with p n ≡ false → str_eq n (p ++ q) ≡ false
inside [] n q h = cc
inside (c ∷ p) [] q h = refl
inside (c ∷ p) (d ∷ n) q h = ground (arith, inside p n q)

prefixed : (p a b : Bytes) → str_eq (p ++ a) (p ++ b) ≡ str_eq a b
prefixed [] a b = refl
prefixed (c ∷ p) a b = ground (arith, prefixed p a b)

-- Writing into ram leaves the sources alone.
IsSource-write :
    (fs : Files) (content : Bytes → Bytes) (n d c : Bytes)
    → IsSource fs content n
    → IsSource (write fs (ram ++ d) c) content n
IsSource-write fs content n d c (o, r, w, x) = (o, rw (outside ram n d o) r, w, x)

All-write :
    (fs : Files) (content : Bytes → Bytes) (ns : List Bytes) (d c : Bytes)
    → All (IsSource fs content) ns
    → All (IsSource (write fs (ram ++ d) c) content) ns
All-write fs content [] d c a = tt
All-write fs content (n ∷ ns) d c (a, rs) =
    (IsSource-write fs content n d c a, All-write fs content ns d c rs)

-- The files in ram, for every name: decoded if it is that of a sound, as before otherwise.
abbrev pub Ram : (Bytes → Bytes) → Files → Files → List Bytes → Type 0
Ram content before after sounds =
    (n : Bytes)
    → after.read (ram ++ n)
      ≡ (if member n sounds then some (swap_pairs (content n)) else before.read (ram ++ n))

Ram-step :
    (content : Bytes → Bytes) (x n : Bytes) (sounds : List Bytes) (old : Option Bytes)
    → (if member n sounds
        then some (swap_pairs (content n))
        else (if str_eq x n then some (swap_pairs (content x)) else old))
      ≡ (if (if str_eq x n then true else member n sounds)
          then some (swap_pairs (content n))
          else old)
Ram-step content x n sounds old = ground (arith, str_eq→eq x n)

module _ (noise : ℕ → Bytes × ℕ) (content : Bytes → Bytes) where
  load_sounds-reads :
      (i : ℕ) (s : Loading) (sounds : List Bytes)
      → All (IsSource s.files content) sounds
      → (r : Loading) × (load_sounds noise i s sounds ≡ done r)
        × (r.parse_status ≡ s.parse_status)
        × Ram content s.files r.files sounds
  unfolding load_sounds
  load_sounds-reads i s [] a = (s, refl, refl, λ n. refl)
  load_sounds-reads i s (x ∷ sounds) ((o, r, w, v), rs) =
      let after = write s.files (ram ++ x) (swap_pairs (content x)) in
      let first =
        zip_uncompress_ok (noise i).0 (noise i).1 s.files x (ram ++ x) (content x)
          (inside ram x x o) r v w in
      let (q, run, st, reads) =
        load_sounds-reads (suc i) (add_sound s x ok after) sounds
          (All-write s.files content sounds x (swap_pairs (content x)) rs) in
      (q, rw first run, st, λ n. reads n ∙ Ram-step content x n sounds (s.files.read (ram ++ n)))

  -- `ParseXml` of a document whose sounds all stand outside of /tmp/, exist with less than 2 ^ 32
  -- bytes and can be written in ram: it returns OK, and behind it the ram file of each sound holds
  -- the sound's bytes with each pair swapped; the ram files of no sound are as before.
  pub parse_xml-reads :
      (m : ConfigManager) (doc : Document) (fs : Files)
      → All (IsSource fs content) doc.sounds
      → (n : ConfigManager) × (fs' : Files) × (parse_xml noise m (some doc) fs
          ≡ done (config_ok, n, fs'))
        × Ram content fs fs' doc.sounds
  unfolding parse_xml
  parse_xml-reads m doc fs a =
      let start : Loading = record {
        config = m.configuration;
        parse_status = config_ok;
        files = fs;
      } in
      let (r, run, st, reads) = load_sounds-reads 0 start doc.sounds a in
      ((loaded noise doc r).1, r.files, rw (run, st) refl, reads)
