-- ===== src/App/TokenKeys/Restart.antt =====
-- A restart of the server keeps its signing key.
use identra.Common.{
  String, ◌==◌, ◌≡◌, ◌≢◌, ◌⊎◌, refl, sym, ap, ◌∙◌, Bool, true, Option, none, some, arith, inl, inr,
  Bool-cases,
}
use identra.Common.Exec.{Result, ok, Action, Exec, ◌>>=◌, bind-elim, bind_ok, Result-cases}
use identra.Text.{trim_space}
use identra.Security.Keys.{
  Crypto, KeyManager, empty, initialize_from_pem, generate_key_pair, export_private_key_pem,
}
use identra.Security.Tokens.{TokenConfig}
use identra.Config.{AuthConfig}
use identra.App.TokenKeys.{
  Reading, read, absent, unreadable, Files, StartError, must, must_or_close, fill_and_rename,
  with_removal, name_or_unwritable, generated, exported, write_private_key_file, load,
  generate_key_file, from_reading, initialize_key_manager_from_file, chosen_key, checked,
  build_token_keys,
}

-- What the program relies on of the file system, for what it writes: `content w p` is the text
-- of the file `p`.
pub record FileLaws {W : Type 0} (files : Files W) : Type 0 where
  pub content : W → String → Option String
  pub read_keeps : (p q : String) (w : W) → content (files.read_file p w).1 q ≡ content w q
  pub read_found : (p t : String) (w : W) → (files.read_file p w).0 ≡ read t → content w p ≡ some t
  pub write_stores :
      (f t : String) (w : W)
      → (files.write f t w).0 ≡ true
      → content (files.write f t w).1 f ≡ some t
  pub sync_keeps : (f q : String) (w : W) → content (files.sync f w).1 q ≡ content w q
  pub close_keeps : (f q : String) (w : W) → content (files.close f w).1 q ≡ content w q
  pub rename_moves :
      (f p : String) (w : W)
      → (files.rename f p w).0 ≡ true
      → content (files.rename f p w).1 p ≡ content w f
  pub remove_keeps :
      (f q : String) (w : W) → f ≢ q → content (files.remove_file f w).1 q ≡ content w q
  -- a file that is there does not read as absent
  pub read_there : (p t : String) (w : W) → content w p ≡ some t → (files.read_file p w).0 ≢ absent

-- The PEM text of a private key is read back, and so are its bytes.
pub record CodecLaws {P : Type 0} (crypto : Crypto P) : Type 0 where
  pub pem :
      (private : P)
      → crypto.pem_decode (crypto.pem_encode "RSA PRIVATE KEY" (crypto.marshal_pkcs1 private))
        ≡ some ("RSA PRIVATE KEY", crypto.marshal_pkcs1 private)
  pub pkcs1 : (private : P) → crypto.parse_pkcs1 (crypto.marshal_pkcs1 private) ≡ some private

module _ {W : Type 0} (files : Files W) (laws : FileLaws files) where
  must-eq-ok :
      (m : Action W Bool) (w : W) {v : W}
      → must files m w ≡ (ok tt, v)
      → ((m w).0 ≡ true) × (v ≡ (m w).1)
  unfolding must
  must-eq-ok m w h = elim (Bool-cases (m w).0) [
    | inl done ↦ (done, ground arith)
    | inr failed ↦ absurd (ground arith)
  ]

  must_or_close-eq-ok :
      (temp : String) (m : Action W Bool) (w : W) {v : W}
      → must_or_close files temp m w ≡ (ok tt, v)
      → ((m w).0 ≡ true) × (v ≡ (m w).1)
  must_or_close-eq-ok temp m w h = elim (Bool-cases (m w).0) [
    | inl done ↦ (done, ground arith)
    | inr failed ↦ absurd (ground arith)
  ]

  fill_and_rename-eq-ok :
      (temp path text : String) (w : W) {v : W}
      → fill_and_rename files temp path text w ≡ (ok tt, v)
      → laws.content v path ≡ some text
  unfolding fill_and_rename
  fill_and_rename-eq-ok temp path text w h = bind-elim _ _ w h λ _ v1 e1 h1.
      bind-elim _ _ v1 h1 λ _ v2 e2 h2. bind-elim _ _ v2 h2 λ _ v3 e3 h3.
        bind-elim _ _ v3 h3 λ _ v4 e4 h4.
          let (written, at2) = must_or_close-eq-ok temp (files.write temp text) v1 e2 in
          let (_, at3) = must_or_close-eq-ok temp (files.sync temp) v2 e3 in
          let (_, at4) = must-eq-ok (files.close temp) v3 e4 in
          let (moved, at5) = must-eq-ok (files.rename temp path) v4 h4 in
          rw
            (
              at5,
              laws.rename_moves temp path v4 moved,
              at4,
              laws.close_keeps temp temp v3,
              at3,
              laws.sync_keeps temp temp v2,
              at2,
            )
            (laws.write_stores temp text v1 written)

  with_removal-eq-ok :
      (temp : String) (body : Exec W StartError (Unit {0})) (w : W) {v : W}
      → with_removal files temp body w ≡ (ok tt, v)
      → (body w ≡ (ok tt, (body w).1)) × (v ≡ (files.remove_file temp (body w).1).1)
  with_removal-eq-ok temp body w h = elim (Result-cases (body w).0) [
    | inr (e, failed) ↦ absurd (ground arith)
    | inl (u, done) ↦ (λ i. (done i, (body w).1), ground arith)
  ]

  drawn_name :
      (name : Option String) (v : W) (temp : String) {v' : W}
      → ◌≡◌ {A = Result StartError String × W} (name_or_unwritable name, v) (ok temp, v')
      → name ≡ some temp
  drawn_name none v temp h = absurd (ground arith)
  drawn_name (some n) v temp h = ground arith

  module _ (path : String)
      (apart : (d t : String) (w : W) → (files.create_temp d w).0 ≡ some t → t ≢ path) where
    -- A write that returns has stored the text.
    write_private_key_file-eq-ok :
        (text : String) (w : W) {v : W}
        → write_private_key_file files path text w ≡ (ok tt, v)
        → laws.content v path ≡ some text
    unfolding write_private_key_file
    write_private_key_file-eq-ok text w {v} h = bind-elim _ _ w h λ _ v1 e1 h1.
        bind-elim _ _ v1 h1 λ temp v2 e2 h2.
          let named : (files.create_temp (files.dir path) v1).0 ≡ some temp = drawn_name _ _ _ e2 in
          let differs = apart (files.dir path) temp v1 named in
          let (filled, at) = with_removal-eq-ok temp (fill_and_rename files temp path text) v2 h2 in
          rw (at, laws.remove_keeps temp path (fill_and_rename files temp path text v2).1 differs)
            (fill_and_rename-eq-ok temp path text v2 filled)

module _ {W P : Type 0} (files : Files W) (laws : FileLaws files) (crypto : Crypto P)
    (codec : CodecLaws crypto) (draw : Action W (Option P)) where
  -- What the file of a generated key reads as.
  generated_key :
      (drawn : Option P) (km : KeyManager P) (text : String)
      → generated (generate_key_pair crypto drawn empty) ≡ ok km
      → exported (export_private_key_pem crypto km) ≡ ok text
      → load crypto text ≡ ok km
  unfolding generate_key_pair export_private_key_pem initialize_from_pem ◌>>=◌
  generated_key none km text made sent = absurd (ground arith)
  generated_key (some private) km text made sent =
      let at = codec.pem private in ground (arith, at, codec.pkcs1 private)

  reading_cases : (r : Reading) → (((t : String) × (r ≡ read t)) ⊎ (r ≡ absent)) ⊎ (r ≡ unreadable)
  reading_cases (read t) = inl (inl (t, refl))
  reading_cases absent = inl (inr refl)
  reading_cases unreadable = inr refl

  some_text : {s t : String} → ◌≡◌ {A = Option String} (some s) (some t) → s ≡ t
  some_text h = ground arith

  first_of :
      {A : Type 0} (r : Result StartError A) (v : W) (a : A) {v' : W}
      → ◌≡◌ {A = Result StartError A × W} (r, v) (ok a, v')
      → r ≡ ok a
  first_of r v a h i = (h i).0

  module _ (key_file : String)
      (apart : (d t : String) (w : W) → (files.create_temp d w).0 ≡ some t → t ≢ key_file) where
    generate_key_file-eq-ok :
        (w : W) {km : KeyManager P} {v : W}
        → generate_key_file files crypto draw key_file w ≡ (ok km, v)
        → (text : String) × (laws.content v key_file ≡ some text) × (load crypto text ≡ ok km)
    unfolding generate_key_file
    generate_key_file-eq-ok w {km} {v} h = bind-elim _ _ w h λ drawn v1 e1 h1.
        bind-elim _ _ v1 h1 λ made v2 e2 h2. bind-elim _ _ v2 h2 λ text v3 e3 h3.
          bind-elim _ _ v3 h3 λ _ v4 e4 h4.
            let generated_km = first_of _ v1 made e2 in
            let sent = first_of _ v2 text e3 in
            let last : v4 ≡ v = ground arith in
            let same : made ≡ km = ground arith in
            (
              text,
              rw (sym last) (write_private_key_file-eq-ok files laws key_file apart text v3 e4),
              rw (sym same) (generated_key drawn made text generated_km sent),
            )

    by_reading :
        (reading : Reading) (w : W) {km : KeyManager P} {v : W}
        → (files.read_file key_file w).0 ≡ reading
        → from_reading files crypto draw key_file reading (files.read_file key_file w).1
          ≡ (ok km, v)
        → (text : String) × (laws.content v key_file ≡ some text) × (load crypto text ≡ ok km)
    by_reading (read pem) w {km} {v} e h =
        let last : (files.read_file key_file w).1 ≡ v = ground arith in
        (
          pem,
          rw (sym last) (laws.read_keeps key_file key_file w ∙ laws.read_found key_file pem w e),
          first_of _ _ _ h,
        )
    by_reading absent w e h = generate_key_file-eq-ok _ h
    by_reading unreadable w e h = absurd (ground arith)

    -- A manager that is returned is what the file reads as.
    initialize-eq-ok :
        (w : W) {km : KeyManager P} {v : W}
        → initialize_key_manager_from_file files crypto draw key_file w ≡ (ok km, v)
        → (text : String) × (laws.content v key_file ≡ some text) × (load crypto text ≡ ok km)
    unfolding initialize_key_manager_from_file ◌>>=◌
    initialize-eq-ok w h = by_reading (files.read_file key_file w).0 w refl h

    -- A file that is there, and can be read, is loaded.
    initialize-there :
        (w : W) (text : String) {km : KeyManager P}
        → laws.content w key_file ≡ some text
        → load crypto text ≡ ok km
        → (files.read_file key_file w).0 ≢ unreadable
        → (initialize_key_manager_from_file files crypto draw key_file w).0 ≡ ok km
    unfolding initialize_key_manager_from_file ◌>>=◌
    initialize-there w text {km} there loads readable =
        elim (reading_cases (files.read_file key_file w).0) [
          | inl (inl (pem, found)) ↦
              let same : text ≡ pem =
                some_text (sym there ∙ laws.read_found key_file pem w found) in
              rw (found, sym same) loads
          | inl (inr gone) ↦ absurd (laws.read_there key_file text w there gone)
          | inr lost ↦ absurd (readable lost)
        ]

  same_choice :
      (cfg : AuthConfig)
      → ((d t : String) (w : W)
          → (files.create_temp d w).0 ≡ some t
          → t ≢ trim_space cfg.rsa_private_key_file)
      → (w v : W) (km : KeyManager P) {w1 : W} → chosen_key files crypto draw cfg w ≡ (ok km, w1)
      → laws.content v (trim_space cfg.rsa_private_key_file)
        ≡ laws.content w1 (trim_space cfg.rsa_private_key_file)
      → (files.read_file (trim_space cfg.rsa_private_key_file) v).0 ≢ unreadable
      → (chosen_key files crypto draw cfg v).0 ≡ ok km
  same_choice cfg apart w v km {w1} first kept readable =
      let file = trim_space cfg.rsa_private_key_file in
      elim (Bool-cases (trim_space cfg.rsa_private_key == "")) [
        | inr given ↦ let one = rw given at first in rw given (first_of _ _ _ one)
        | inl no_pem ↦ elim (Bool-cases (file == "")) [
          | inl nowhere ↦ let one = rw (no_pem, nowhere) at first in absurd (ground arith)
          | inr named ↦
              let one : initialize_key_manager_from_file files crypto draw file w ≡ (ok km, w1) =
                rw (no_pem, named) at first in
              let (text, there, loads) = initialize-eq-ok file apart w one in
              rw (no_pem, named) (initialize-there file apart v text (kept ∙ there) loads readable)
        ]
      ]

  -- Over a file system that keeps what is written and a PEM encoding that is read back, where no temporary file takes the name of
  -- the key file: once a start of the server has returned its keys, whether it has read the key, generated it or taken it from the configuration,
  -- every start with the key file as the first has left it, and not unreadable, returns the same keys.
  pub restart_keeps_key :
      (cfg : AuthConfig) (w w' v : W) (keys : KeyManager P × TokenConfig P)
      → ((d t : String) (w : W)
          → (files.create_temp d w).0 ≡ some t
          → t ≢ trim_space cfg.rsa_private_key_file)
      → build_token_keys files crypto draw cfg w ≡ (ok keys, w')
      → laws.content v (trim_space cfg.rsa_private_key_file)
        ≡ laws.content w' (trim_space cfg.rsa_private_key_file)
      → (files.read_file (trim_space cfg.rsa_private_key_file) v).0 ≢ unreadable
      → (build_token_keys files crypto draw cfg v).0 ≡ ok keys
  unfolding build_token_keys
  restart_keeps_key cfg w w' v keys apart first kept readable =
      bind-elim (chosen_key files crypto draw cfg) (λ km u. (checked cfg km, u)) w first
        λ km w1 e1 h1.
          let last : w1 ≡ w' = ground arith in
          let same = same_choice cfg apart w v km e1 (kept ∙ rw last refl) readable in
          let there =
            bind_ok (chosen_key files crypto draw cfg) (λ km u. (checked cfg km, u))
              (λ i. (same i, (chosen_key files crypto draw cfg v).1)) in
          ap (λ (p : Result StartError (KeyManager P × TokenConfig P) × W). p.0) there
          ∙ first_of _ _ _ h1
