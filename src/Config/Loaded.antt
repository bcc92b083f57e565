-- ===== src/Config/Loaded.antt =====
-- src/config_manager/config_manager/config_manager.cpp, `ParseXml`: the fields that `main` uses.
use rpi_tcp_listener.Base.{
  ℕ, zero, suc, ◌≡◌, refl, sym, ◌∙◌, ap, true, none, some, List, [], ◌∷◌, ◌++◌, map, get_elem?,
  arith, length,
}
use rpi_tcp_listener.Base.Int.{ℤ}
use rpi_tcp_listener.Base.Text.{Bytes, str_eq_refl}
use rpi_tcp_listener.Base.Outcome.{done, >>=-eq-done, done-injective}
use rpi_tcp_listener.Files.{Files}
use rpi_tcp_listener.Zip.{ZipStatus, ok, same_src_dst, file_not_exists, zip_uncompress}
use rpi_tcp_listener.Config.{
  ConfigStatus, config_ok, missing_fields_in_config, Configuration, ConfigManager, Document,
  Loading, ram, extract, add_sound, load_sounds, parse_xml, loaded,
}
use rpi_tcp_listener.Config.Sounds.{Slots, end, decoded, missing, parse_xml-Slots}
use rpi_tcp_listener.Config.Decoded.{member}

-- The sounds, as they are named in ram.
abbrev pub in_ram : List Bytes → List Bytes
in_ram = map (λ sound. ram ++ sound)

Slots-missing :
    (noise : ℕ → Bytes × ℕ) {i : ℕ} {sounds slots : List Bytes} {st st' : ConfigStatus}
    {fs fs' : Files}
    → Slots noise i sounds slots st st' fs fs'
    → st ≡ missing_fields_in_config
    → st' ≡ missing_fields_in_config
Slots-missing noise (end i st fs) e = e
Slots-missing noise (decoded u p) e = Slots-missing noise p e
Slots-missing noise (missing status n u p) e = Slots-missing noise p refl

Slots-ok :
    (noise : ℕ → Bytes × ℕ) {i : ℕ} {sounds slots : List Bytes} {st st' : ConfigStatus}
    {fs fs' : Files}
    → Slots noise i sounds slots st st' fs fs'
    → st' ≡ config_ok
    → slots ≡ in_ram sounds
Slots-ok noise (end i st fs) e = refl
Slots-ok noise (decoded {sound = sound} u p) e = ap (◌∷◌ (ram ++ sound)) (Slots-ok noise p e)
Slots-ok noise (missing status n u p) e = let m = Slots-missing noise p refl in absurd (cc)

-- The numbers of a configuration.
abbrev numbers : Configuration → ℤ × ℤ
numbers c = (c.autoplay, c.port)

add_sound-numbers :
    (s : Loading) (sound : Bytes) (st : ZipStatus) (fs : Files)
    → numbers (add_sound s sound st fs).config ≡ numbers s.config
unfolding add_sound
add_sound-numbers s sound ok fs = refl
add_sound-numbers s sound same_src_dst fs = refl
add_sound-numbers s sound file_not_exists fs = refl

module _ (noise : ℕ → Bytes × ℕ) where
  load_sounds-numbers :
      (i : ℕ) (s r : Loading) (sounds : List Bytes)
      → load_sounds noise i s sounds ≡ done r
      → numbers r.config ≡ numbers s.config
  unfolding load_sounds
  load_sounds-numbers i s r [] h = ap (λ x. numbers x.config) (sym (done-injective h))
  load_sounds-numbers i s r (sound ∷ sounds) h =
      let (a, first, later) =
        >>=-eq-done (zip_uncompress (noise i).0 (noise i).1 s.files sound (ram ++ sound))
          (λ a. load_sounds noise (suc i) (add_sound s sound a.0 a.1) sounds) h in
      load_sounds-numbers (suc i) (add_sound s sound a.0 a.1) r sounds later
      ∙ add_sound-numbers s sound a.0 a.1

  parse_xml-loaded :
      (m n : ConfigManager) (doc : Document) (fs fs' : Files) (st : ConfigStatus)
      → parse_xml noise m (some doc) fs ≡ done (st, n, fs')
      → (r : Loading) × (loaded noise doc r ≡ (st, n, fs'))
        × (numbers r.config ≡ numbers m.configuration)
  unfolding parse_xml
  parse_xml-loaded m n doc fs fs' st h =
      let start : Loading = record {
        config = m.configuration;
        parse_status = config_ok;
        files = fs;
      } in
      let (r, first, later) =
        >>=-eq-done (load_sounds noise 0 start doc.sounds) (λ r. done (loaded noise doc r)) h in
      (r, done-injective later, load_sounds-numbers 0 start r doc.sounds first)

  -- A parsed document gives the autoplay number that stands in it.
  pub parse_xml-autoplay :
      (m n : ConfigManager) (doc : Document) (fs fs' : Files) (st : ConfigStatus)
      → parse_xml noise m (some doc) fs ≡ done (st, n, fs')
      → n.configuration.autoplay ≡ extract doc.autoplay_text m.configuration.autoplay
  parse_xml-autoplay m n doc fs fs' st h =
      let (r, e, kept) = parse_xml-loaded m n doc fs fs' st h in
      ap (λ x. x.1.configuration.autoplay) (sym e) ∙ ap (λ x. extract doc.autoplay_text x.0) kept

  -- It gives the three addresses and the port that stand in it.
  pub parse_xml-network :
      (m n : ConfigManager) (doc : Document) (fs fs' : Files) (st : ConfigStatus)
      → parse_xml noise m (some doc) fs ≡ done (st, n, fs')
      → (n.configuration.ip_str ≡ doc.ip)
        × (n.configuration.mask_str ≡ doc.mask)
        × (n.configuration.gateway_str ≡ doc.gateway)
        × (n.configuration.port ≡ extract doc.port_text m.configuration.port)
  parse_xml-network m n doc fs fs' st h =
      let (r, e, kept) = parse_xml-loaded m n doc fs fs' st h in
      (
        ap (λ x. x.1.configuration.ip_str) (sym e),
        ap (λ x. x.1.configuration.mask_str) (sym e),
        ap (λ x. x.1.configuration.gateway_str) (sym e),
        ap (λ x. x.1.configuration.port) (sym e) ∙ ap (λ x. extract doc.port_text x.1) kept,
      )

  -- When it was parsed without a missing sound, the sound files are those in ram, in order.
  pub parse_xml-in_ram :
      (m n : ConfigManager) (doc : Document) (fs fs' : Files)
      → parse_xml noise m (some doc) fs ≡ done (config_ok, n, fs')
      → n.configuration.sound_files ≡ m.configuration.sound_files ++ in_ram doc.sounds
  parse_xml-in_ram m n doc fs fs' h =
      let (c, slots, f, p) = parse_xml-Slots noise m n doc fs fs' config_ok h in
      f ∙ ap (λ x. m.configuration.sound_files ++ x) (Slots-ok noise p refl)

pub in_ram-found :
    (sounds : List Bytes) (i : ℕ) (sound : Bytes)
    → get_elem? sounds i ≡ some sound
    → get_elem? (in_ram sounds) i ≡ some (ram ++ sound)
in_ram-found [] i sound h = cc
in_ram-found (s ∷ sounds) zero sound h =
    ap (λ o. elim o [ some x ↦ some (ram ++ x) | none ↦ none ]) h
in_ram-found (s ∷ sounds) (suc i) sound h = in_ram-found sounds i sound h

pub length-in_ram : (sounds : List Bytes) → length (in_ram sounds) ≡ length sounds
length-in_ram [] = refl
length-in_ram (s ∷ sounds) = ap suc (length-in_ram sounds)

pub found-member :
    (sounds : List Bytes) (i : ℕ) (sound : Bytes)
    → get_elem? sounds i ≡ some sound
    → member sound sounds ≡ true
found-member [] i sound h = cc
found-member (s ∷ sounds) zero sound h = ground (arith, str_eq_refl sound)
found-member (s ∷ sounds) (suc i) sound h = ground (arith, found-member sounds i sound h)
