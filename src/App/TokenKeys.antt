-- ===== src/App/TokenKeys.antt =====
-- internal/app/tokens.go: the signing key of the configuration or of its file.
pub mod Restart
use identra.Common.{String, ◌==◌, Bool, true, false, not, Option, none, some, if◌then◌else◌}
use identra.Common.Exec.{Result, ok, err, Action, Exec, pure, raise, run, ◌>>=◌, ◌>>◌}
use identra.Text.{trim_space}
use identra.Security.Keys.{
  Crypto, KeyManager, KeyError, PublicKey, empty, initialize_from_pem, generate_key_pair,
  is_initialized, export_private_key_pem,
}
use identra.Security.Tokens.{TokenConfig}
use identra.Config.{AuthConfig, TokenSettings, natural}

-- What os.ReadFile answers: the text, an error that os.IsNotExist accepts, or another.
pub data Reading : Type 0 where
  read : String → Reading
  absent unreadable : Reading

-- What the program uses of the packages os and path/filepath. A call answers whether it has
-- succeeded.
pub record Files (W : Type 0) : Type 0 where
  pub dir : String → String
  pub read_file : String → Action W Reading
  pub mkdir_all : String → Action W Bool
  -- the name of the new file
  pub create_temp : String → Action W (Option String)
  pub chmod : String → Action W Bool
  pub write : String → String → Action W Bool
  pub sync : String → Action W Bool
  pub close : String → Action W Bool
  pub rename : String → String → Action W Bool
  -- an error that os.IsNotExist accepts counts as a success
  pub remove_file : String → Action W Bool

pub data StartError : Type 0 where
  key_unloadable key_ungenerated : KeyError → StartError
  file_required file_unreadable file_unwritable not_initialized : StartError

abbrev or_unwritable : Bool → Result StartError (Unit {0})
or_unwritable true = ok tt
or_unwritable false = err file_unwritable

abbrev pub name_or_unwritable : Option String → Result StartError String
name_or_unwritable none = err file_unwritable
name_or_unwritable (some name) = ok name

module _ {W : Type 0} (files : Files W) where
  -- A call that must succeed.
  unfoldable pub must : Action W Bool → Exec W StartError (Unit {0})
  must m w = let (done, v) = m w in (or_unwritable done, v)

  -- The same, with the file closed where it does not.
  abbrev pub must_or_close : String → Action W Bool → Exec W StartError (Unit {0})
  must_or_close temp m w =
      let (done, v) = m w in
      if done then (ok tt, v) else (err file_unwritable, (files.close temp v).1)

  -- The calls on the temporary file, up to its new name.
  unfoldable pub fill_and_rename : String → String → String → Exec W StartError (Unit {0})
  fill_and_rename temp path data_ = do
    must_or_close temp (files.chmod temp)
    must_or_close temp (files.write temp data_)
    must_or_close temp (files.sync temp)
    must (files.close temp)
    must (files.rename temp path)

  -- The deferred removal, whose error counts where there is none before.
  abbrev pub removed : Bool → Result StartError (Unit {0}) → Result StartError (Unit {0})
  removed done (err e) = err e
  removed done (ok u) = or_unwritable done

  abbrev pub with_removal : String → Exec W StartError (Unit {0}) → Exec W StartError (Unit {0})
  with_removal temp body w =
      let (r, v) = body w in let (done, u) = files.remove_file temp v in (removed done r, u)

  unfoldable pub write_private_key_file : String → String → Exec W StartError (Unit {0})
  unfolding must
  write_private_key_file path data_ = do
    must (files.mkdir_all (files.dir path))
    temp ←
        λ w. (let (name, v) = files.create_temp (files.dir path) w in (name_or_unwritable name, v))
    with_removal temp (fill_and_rename temp path data_)

abbrev pub exported : Result KeyError String → Result StartError String
exported (ok text) = ok text
exported (err e) = err (key_ungenerated e)

module _ {P : Type 0} where
  abbrev loaded : Result KeyError (Unit {0}) × KeyManager P → Result StartError (KeyManager P)
  loaded (ok u, km) = ok km
  loaded (err e, km) = err (key_unloadable e)

  abbrev pub generated :
      Result KeyError (Unit {0}) × KeyManager P → Result StartError (KeyManager P)
  generated (ok u, km) = ok km
  generated (err e, km) = err (key_ungenerated e)

  unfoldable pub token_config : KeyManager P → TokenSettings → TokenConfig P
  token_config km cfg = record {
    private_key = km.private_key;
    public_key = km.public_key;
    key_id = km.key_id;
    issuer = cfg.issuer;
    access_token_expiration = natural cfg.access_token_expiration;
    refresh_token_expiration = natural cfg.refresh_token_expiration;
    service_token_expiration = natural cfg.service_token_expiration;
  }

  abbrev has_keys : Option P → Option PublicKey → Bool
  has_keys (some k) (some p) = true
  has_keys _ _ = false

  -- The checks at the end of `buildTokenKeys`.
  abbrev pub checked : AuthConfig → KeyManager P → Result StartError (KeyManager P × TokenConfig P)
  checked cfg km =
      if not (is_initialized km)
      then err not_initialized
      else if not (has_keys km.private_key km.public_key)
      then err not_initialized
      else ok (km, token_config km cfg.token)

module _ {P : Type 0} (crypto : Crypto P) where
  abbrev pub load : String → Result StartError (KeyManager P)
  load pem = loaded (initialize_from_pem crypto pem empty)

module _ {W P : Type 0} (files : Files W) (crypto : Crypto P) (draw : Action W (Option P)) where
  -- The part of `initializeKeyManagerFromFile` for a file that does not exist.
  unfoldable pub generate_key_file : String → Exec W StartError (KeyManager P)
  generate_key_file key_file = do
    drawn ← run draw
    km ← λ w. (generated (generate_key_pair crypto drawn empty), w)
    text ← λ w. (exported (export_private_key_pem crypto km), w)
    write_private_key_file files key_file text
    pure km

  abbrev pub from_reading : String → Reading → Exec W StartError (KeyManager P)
  from_reading key_file (read pem) = λ w. (load crypto pem, w)
  from_reading key_file absent = generate_key_file key_file
  from_reading key_file unreadable = raise file_unreadable

  -- The manager is a new one, as its caller's.
  unfoldable pub initialize_key_manager_from_file : String → Exec W StartError (KeyManager P)
  initialize_key_manager_from_file key_file = do
    reading ← run (files.read_file key_file)
    from_reading key_file reading

  abbrev pub chosen_key : AuthConfig → Exec W StartError (KeyManager P)
  chosen_key cfg =
      let pem = trim_space cfg.rsa_private_key in
      let key_file = trim_space cfg.rsa_private_key_file in
      if not (pem == "")
      then (λ w. (load crypto pem, w))
      else if key_file == ""
      then raise file_required
      else initialize_key_manager_from_file key_file

  unfoldable pub build_token_keys : AuthConfig → Exec W StartError (KeyManager P × TokenConfig P)
  build_token_keys cfg = chosen_key cfg >>= λ km w. (checked cfg km, w)
