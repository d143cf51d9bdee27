-- ===== src/Web/Channels.antt =====
-- The routes on the input channels (src/document_core/api.py). What the routes take from pathlib is a
-- parameter.
pub mod Contained
use Prim.Native.Char.{code}
use Prim.Native.String
use document_feeder.Prelude.{
  ℕ, suc, String, Bool, true, false, not, ◌&&◌, ◌||◌, Option, none, some, List, [], ◌∷◌, ◌==◌, eqb,
  exists, select, map, if◌then◌else◌, Outcome, ok, raise,
}
use document_feeder.Prelude.Exec.{pure, lift, ◌>>=◌, ◌>>◌}
use document_feeder.Models.Target.{InputChannel}
use document_feeder.Connectors.{Failure, message}
use document_feeder.Config.{input_root, ◌//◌}
use document_feeder.Store.Jobs.{StoreError}
use document_feeder.Store.Channels.{
  ChannelTable, list_channels, get_channel, save_channel, delete_channel,
}
use document_feeder.Web.World.{
  WebEnvironment, WebError, http_exception, uncaught, Service, Handler, web_settings, read, reject,
}
use document_feeder.Web.Jobs.{is_inside}

pub record InputChannelCreate : Type 0 where
  pub name : String
  pub directory : String
  pub patterns : List String
  pub enabled : Bool

pub record InputChannelUpdate : Type 0 where
  pub name : Option String
  pub directory : Option String
  pub patterns : Option (List String)
  pub enabled : Option Bool

-- pathlib: the parts of a path, whether it is absolute, its text, and
-- `mkdir(parents=True, exist_ok=True)`
pub record PathLibrary (Files : Type 0) : Type 0 where
  pub parts : String → List String
  pub is_absolute : String → Bool
  pub as_posix : String → String
  pub mkdir : String → Files → Outcome Failure Files

-- `c in text`, for the character with a code
abbrev pub has_character : ℕ → String → Bool
has_character c String.[] = false
has_character c (String.◌∷◌ d text) = eqb (code d) c || has_character c text

-- `"/" in pattern or "\\" in pattern`
abbrev pub has_separator : String → Bool
has_separator pattern = has_character 47 pattern || has_character 92 pattern

abbrev pub is_empty : List String → Bool
is_empty [] = true
is_empty (x ∷ xs) = false

abbrev pub given : {A : Type 0} → Option A → A → A
given none stored = stored
given (some a) stored = a

module _ (env : WebEnvironment) (paths : PathLibrary env.pipeline.Files) where
  abbrev pub refusal : {A : Type 0} → String → Outcome WebError A
  refusal detail = raise (http_exception 422 detail)

  abbrev pub channel_root : env.pipeline.Files → String
  channel_root files = env.pipeline.resolve (input_root (web_settings env)) files

  abbrev pub channel_path : String → env.pipeline.Files → String
  channel_path directory files = env.pipeline.resolve (channel_root files // directory) files

  abbrev pub is_outside : String → env.pipeline.Files → Bool
  is_outside directory files =
      channel_path directory files == channel_root files
      || not (is_inside (channel_root files) (channel_path directory files))

  -- `resolve_channel_directory`
  unfoldable pub resolve_channel_directory : String → env.pipeline.Files → Outcome WebError String
  resolve_channel_directory directory files =
      if is_outside directory files
      then refusal "Hotfolder liegt außerhalb des Datenverzeichnisses"
      else ok (channel_path directory files)

  -- `[pattern.strip() for pattern in patterns if pattern.strip()]`
  abbrev pub cleaned : List String → List String
  cleaned patterns = select (λ p. not (p == "")) (map env.strip patterns)

  abbrev pub is_unusable : List String → Bool
  is_unusable patterns = is_empty patterns || exists has_separator patterns

  abbrev pub with_patterns :
      String → List String → Outcome WebError String → Outcome WebError (String × List String)
  with_patterns directory patterns (raise e) = raise e
  with_patterns directory patterns (ok path) =
      if is_unusable patterns
      then refusal "Dateimuster dürfen nur Dateinamen betreffen"
      else ok (directory, patterns)

  abbrev pub is_foreign : String → Bool
  is_foreign directory = has_character 92 directory || has_character 58 directory

  abbrev pub is_stray : String → Bool
  is_stray relative =
      paths.is_absolute relative
      || is_empty (paths.parts relative)
      || exists (λ part. part == "..") (paths.parts relative)

  -- `validate_channel_settings`
  unfoldable pub validate_channel_settings :
      String → List String → env.pipeline.Files → Outcome WebError (String × List String)
  validate_channel_settings directory patterns files =
      let relative = env.strip directory in
      let normalized = paths.as_posix relative in
      if is_foreign directory
      then refusal "Hotfolder muss ein relativer POSIX-Pfad sein"
      else if is_stray relative
      then refusal "Hotfolder muss relativ zum Datenverzeichnis sein"
      else with_patterns normalized (cleaned patterns) (resolve_channel_directory normalized files)

  abbrev pub checked_settings : String → List String → Handler env (String × List String)
  checked_settings directory patterns s = (validate_channel_settings directory patterns s.files, s)

  -- `list_input_channels`
  unfoldable pub list_input_channels : Handler env (List InputChannel)
  list_input_channels = read env (λ t. list_channels false t.channels)

  stored_channel : Outcome StoreError InputChannel × ChannelTable → Handler env InputChannel
  stored_channel (ok channel, t) s =
      (ok channel, record s { tables = record s.tables { channels = t } })
  stored_channel (raise e, t) s =
      (raise (http_exception 409 "Name oder Hotfolder ist bereits vergeben"), s)

  -- `store.save_channel`, with its answer to an `IntegrityError`
  unfoldable pub store_channel : InputChannel → Handler env InputChannel
  unfolding stored_channel
  store_channel channel s =
      stored_channel (save_channel (env.pipeline.clock s.readings) channel s.tables.channels)
        (record s { readings = suc s.readings })

  made : Outcome Failure env.pipeline.Files → Handler env Unit
  made (ok files) s = (ok tt, record s { files = files })
  made (raise e) s = (raise (uncaught (message e)), s)

  -- `resolve_channel_directory(directory).mkdir(…)`
  unfoldable pub make_channel_directory : String → Handler env Unit
  unfolding made
  make_channel_directory directory s =
      ((λ t. (resolve_channel_directory directory t.files, t)) >>= λ path t.
      made (paths.mkdir path t.files) t)
        s

  unfoldable pub keep_channel : InputChannel → Handler env InputChannel
  keep_channel channel =
      store_channel channel >>= λ saved. make_channel_directory saved.directory >> pure saved

  -- `create_input_channel`, with the checked directory and patterns
  unfoldable pub create_validated :
      InputChannelCreate → String × List String → Handler env InputChannel
  unfolding keep_channel
  create_validated q settings s =
      if env.strip q.name == ""
      then reject env 422 "Name darf nicht leer sein" s
      else keep_channel
          (record {
            id = env.pipeline.uuid s.draws;
            name = env.strip q.name;
            kind = "hotfolder";
            directory = settings.0;
            patterns = settings.1;
            enabled = q.enabled;
            last_ingested_at = none;
            last_error = none;
            created_at = env.pipeline.clock s.readings;
            updated_at = env.pipeline.clock (suc s.readings);
          })
          (record s { readings = suc (suc s.readings); draws = suc s.draws })

  unfoldable pub create_input_channel : InputChannelCreate → Handler env InputChannel
  unfolding create_validated
  create_input_channel q = checked_settings q.directory q.patterns >>= create_validated q

  abbrev pub new_name : Option String → InputChannel → Handler env String
  new_name none channel = pure channel.name
  new_name (some name) channel =
      if env.strip name == ""
      then reject env 422 "Name darf nicht leer sein"
      else pure (env.strip name)

  -- `update_input_channel`, with the checked directory and patterns
  unfoldable pub update_validated :
      InputChannelUpdate → InputChannel → String × List String → Handler env InputChannel
  unfolding keep_channel
  update_validated q channel settings = new_name q.name channel >>= λ name.
      keep_channel (record channel {
        name = name;
        directory = settings.0;
        patterns = settings.1;
        enabled = given q.enabled channel.enabled;
      })

  unfoldable pub update_found : InputChannelUpdate → Option InputChannel → Handler env InputChannel
  unfolding update_validated
  update_found q none = reject env 404 "Eingangskanal nicht gefunden"
  update_found q (some channel) =
      checked_settings (given q.directory channel.directory) (given q.patterns channel.patterns)
      >>= update_validated q channel

  -- `update_input_channel`
  unfoldable pub update_input_channel : String → InputChannelUpdate → Handler env InputChannel
  unfolding update_found
  update_input_channel id q = read env (λ t. get_channel id t.channels) >>= update_found q

  removed_channel : Bool × ChannelTable → Handler env Unit
  removed_channel (true, t) s = (ok tt, record s { tables = record s.tables { channels = t } })
  removed_channel (false, t) s = reject env 404 "Eingangskanal nicht gefunden" s

  -- `delete_input_channel`
  unfoldable pub delete_input_channel : String → Handler env Unit
  unfolding removed_channel
  delete_input_channel id s = removed_channel (delete_channel id s.tables.channels) s
