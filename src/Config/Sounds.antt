-- ===== src/Config/Sounds.antt =====
-- src/config_manager/config_manager/config_manager.cpp, `ParseXml`: the list of sounds, and the
-- files that it decodes.
use rpi_tcp_listener.Base.{
  ℕ, suc, ◌≡◌, ◌≢◌, sym, subst, ◌∙◌, some, List, [], ◌∷◌, ◌++◌, append_assoc, append-nil,
}
use rpi_tcp_listener.Base.Text.{Bytes}
use rpi_tcp_listener.Base.Outcome.{done, >>=-eq-done, done-injective}
use rpi_tcp_listener.Files.{Files}
use rpi_tcp_listener.Zip.{ZipStatus, ok, same_src_dst, file_not_exists, zip_uncompress}
use rpi_tcp_listener.Config.{
  ConfigStatus, config_ok, missing_fields_in_config, ConfigManager, Document, Loading, ram,
  add_sound, load_sounds, parse_xml, loaded,
}

module _ (noise : ℕ → Bytes × ℕ) where
  -- `ZipUncompress` of the i-th sound into ram.
  abbrev pub Unzips : ℕ → Bytes → Files → ZipStatus → Files → Type 0
  Unzips i sound fs status fs' =
      zip_uncompress (noise i).0 (noise i).1 fs sound (ram ++ sound) ≡ done (status, fs')

  -- A slot of `sound_files` for each sound, from the i-th on: the file in ram, if `ZipUncompress`
  -- returns OK on the files of the moment, or nothing, if it returns anything else; the status
  -- before and behind them, and the files.
  pub data Slots
      : ℕ → List Bytes → List Bytes → ConfigStatus → ConfigStatus → Files → Files → Type 0 where
    end : (i : ℕ) (st : ConfigStatus) (fs : Files) → Slots i [] [] st st fs fs
    decoded :
        {i : ℕ} {sound : Bytes} {sounds slots : List Bytes} {st st' : ConfigStatus}
        {fs fs1 fs' : Files}
        → Unzips i sound fs ok fs1
        → Slots (suc i) sounds slots st st' fs1 fs'
        → Slots i (sound ∷ sounds) ((ram ++ sound) ∷ slots) st st' fs fs'
    missing :
        {i : ℕ} {sound : Bytes} {sounds slots : List Bytes} {st st' : ConfigStatus}
        {fs fs1 fs' : Files} (status : ZipStatus)
        → status ≢ ok
        → Unzips i sound fs status fs1
        → Slots (suc i) sounds slots missing_fields_in_config st' fs1 fs'
        → Slots i (sound ∷ sounds) ([] ∷ slots) st st' fs fs'

  -- What the loop returns, from the configuration, status and files before it.
  abbrev Filled : ℕ → Loading → List Bytes → Loading → Type 0
  Filled i s sounds r =
      (r.config.compressed_files ≡ s.config.compressed_files ++ sounds)
      × (slots : List Bytes) × (r.config.sound_files ≡ s.config.sound_files ++ slots)
      × Slots i sounds slots s.parse_status r.parse_status s.files r.files

  add_sound-Filled :
      (i : ℕ) (s r : Loading) (sound : Bytes) (sounds : List Bytes) (st : ZipStatus) (fs : Files)
      → Unzips i sound s.files st fs
      → Filled (suc i) (add_sound s sound st fs) sounds r
      → Filled i s (sound ∷ sounds) r
  unfolding add_sound
  add_sound-Filled i s r sound sounds ok fs u (c, slots, f, p) = (
    c ∙ append_assoc s.config.compressed_files (sound ∷ []) sounds,
    (ram ++ sound) ∷ slots,
    f ∙ append_assoc s.config.sound_files ((ram ++ sound) ∷ []) slots,
    decoded u p,
  )
  add_sound-Filled i s r sound sounds same_src_dst fs u (c, slots, f, p) = (
    c ∙ append_assoc s.config.compressed_files (sound ∷ []) sounds,
    [] ∷ slots,
    f ∙ append_assoc s.config.sound_files ([] ∷ []) slots,
    missing same_src_dst (λ e. cc) u p,
  )
  add_sound-Filled i s r sound sounds file_not_exists fs u (c, slots, f, p) = (
    c ∙ append_assoc s.config.compressed_files (sound ∷ []) sounds,
    [] ∷ slots,
    f ∙ append_assoc s.config.sound_files ([] ∷ []) slots,
    missing file_not_exists (λ e. cc) u p,
  )

  load_sounds-Filled :
      (i : ℕ) (s r : Loading) (sounds : List Bytes)
      → load_sounds noise i s sounds ≡ done r
      → Filled i s sounds r
  unfolding load_sounds
  load_sounds-Filled i s r [] h = subst (Filled i s []) (done-injective h) (
    sym (append-nil s.config.compressed_files),
    [],
    sym (append-nil s.config.sound_files),
    end i s.parse_status s.files,
  )
  load_sounds-Filled i s r (sound ∷ sounds) h =
      let (a, first, later) =
        >>=-eq-done (zip_uncompress (noise i).0 (noise i).1 s.files sound (ram ++ sound))
          (λ a. load_sounds noise (suc i) (add_sound s sound a.0 a.1) sounds) h in
      add_sound-Filled i s r sound sounds a.0 a.1 first
        (load_sounds-Filled (suc i) (add_sound s sound a.0 a.1) r sounds later)

  -- `ParseXml` of a document, when it returns: each sound is appended to the compressed files and
  -- has a slot at the same place behind the sound files, which is its name in ram if
  -- `ZipUncompress` returned OK for it, on the files that those before it had left, and empty if
  -- it returned another status; the status is OK exactly when no slot is empty, and
  -- MISSING_FIELDS_IN_CONFIG otherwise.
  pub parse_xml-Slots :
      (m n : ConfigManager) (doc : Document) (fs fs' : Files) (st : ConfigStatus)
      → parse_xml noise m (some doc) fs ≡ done (st, n, fs')
      → (n.configuration.compressed_files ≡ m.configuration.compressed_files ++ doc.sounds)
        × (slots : List Bytes) × (n.configuration.sound_files
            ≡ m.configuration.sound_files ++ slots)
        × Slots 0 doc.sounds slots config_ok st fs fs'
  unfolding parse_xml
  parse_xml-Slots m n doc fs fs' st h =
      let start : Loading = record {
        config = m.configuration;
        parse_status = config_ok;
        files = fs;
      } in
      let (r, first, later) =
        >>=-eq-done (load_sounds noise 0 start doc.sounds) (λ r. done (loaded noise doc r)) h in
      let filled = load_sounds-Filled 0 start r doc.sounds first in
      subst
        (λ x.
          (x.1.configuration.compressed_files ≡ m.configuration.compressed_files ++ doc.sounds)
          × (slots : List Bytes) × (x.1.configuration.sound_files
              ≡ m.configuration.sound_files ++ slots)
          × Slots 0 doc.sounds slots config_ok x.0 fs x.2)
        (done-injective later) filled
