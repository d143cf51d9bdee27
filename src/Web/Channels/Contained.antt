-- ===== src/Web/Channels/Contained.antt =====
-- Where input channels may lie (src/document_core/api.py).
use document_feeder.Prelude.{
  ◌≡◌, refl, sym, subst, String, Bool, true, false, ◌||◌, ◌&&◌, not, Option, none, some, List, ◌==◌,
  exists, if◌then◌else◌, Bool-cases, inl, inr, Outcome, ok, raise,
}
use document_feeder.Prelude.Exec.{◌>>=◌}
use document_feeder.Prelude.Exec.Laws.{Ensures, bind-Ensures}
use document_feeder.Models.Target.{InputChannel}
use document_feeder.Store.Channels.{get_channel, save_channel}
use document_feeder.Web.World.{WebEnvironment, WebError, Service, Handler}
use document_feeder.Web.Jobs.{is_inside}
use document_feeder.Web.Channels.{
  PathLibrary, InputChannelCreate, InputChannelUpdate, channel_path, channel_root, is_empty,
  has_separator, with_patterns, cleaned, is_outside, is_unusable, is_foreign, is_stray,
  resolve_channel_directory, validate_channel_settings, checked_settings, store_channel,
  keep_channel, make_channel_directory, create_validated, create_input_channel, new_name,
  update_validated, update_found, update_input_channel, given,
}

-- In the files, the directory lies inside the root of the inputs and is another one, and there are
-- patterns, all of them without a separator.
unfoldable pub IsContained :
    (env : WebEnvironment)
    → PathLibrary env.pipeline.Files
    → env.pipeline.Files
    → String
    → List String
    → Type 0
IsContained env paths files directory patterns =
    ((channel_path env paths directory files == channel_root env paths files) ≡ false)
    × (is_inside (channel_root env paths files) (channel_path env paths directory files) ≡ true)
    × (is_empty patterns ≡ false)
    × (exists has_separator patterns ≡ false)

-- a request that saves a channel
pub data ChannelRequest : Type 0 where
  creation : InputChannelCreate → ChannelRequest
  change : String → InputChannelUpdate → ChannelRequest

neither : (a b : Bool) → (a || b) ≡ false → (a ≡ false) × (b ≡ false)
neither true b h = cc
neither false b h = (refl, h)

not-not : (b : Bool) → not b ≡ false → b ≡ true
not-not true h = refl
not-not false h = cc

module _ {A : Type 0} where
  ok-inj : {a b : A} (r : Outcome WebError A) → r ≡ ok a → r ≡ ok b → a ≡ b
  ok-inj r h k = cc

  -- a test that refuses
  passed :
      (b : Bool) (e : WebError) (m : Outcome WebError A) {a : A}
      → (if b then raise e else m) ≡ ok a
      → (b ≡ false) × (m ≡ ok a)
  passed true e m h = cc
  passed false e m h = (refl, h)

module _ (env : WebEnvironment) (paths : PathLibrary env.pipeline.Files) where
  abbrev State : Type 0
  State = Service env.pipeline.Files

  with_patterns-IsContained :
      (files : env.pipeline.Files) (directory : String) (patterns : List String)
      (r : Outcome WebError String) {settings : String × List String}
      → r ≡ resolve_channel_directory env paths directory files
      → with_patterns env paths directory patterns r ≡ ok settings
      → IsContained env paths files settings.0 settings.1
  unfolding resolve_channel_directory IsContained
  with_patterns-IsContained files directory patterns (raise e) k h = cc
  with_patterns-IsContained files directory patterns (ok path) {settings} k h =
      let kept = passed (is_outside env paths directory files) _ _ (sym k) in
      let outside =
        neither (channel_path env paths directory files == channel_root env paths files) _ kept.0 in
      let accepted = passed (is_unusable env paths patterns) _ _ h in
      let named = neither (is_empty patterns) _ accepted.0 in
      let same = ok-inj (ok (directory, patterns)) refl accepted.1 in
      subst (λ v. IsContained env paths files v.0 v.1) same
        (outside.0, not-not _ outside.1, named.0, named.1)

  validate-IsContained :
      (directory : String) (patterns : List String) (files : env.pipeline.Files)
      {settings : String × List String}
      → validate_channel_settings env paths directory patterns files ≡ ok settings
      → IsContained env paths files settings.0 settings.1
  unfolding validate_channel_settings
  validate-IsContained directory patterns files h =
      with_patterns-IsContained files _ (cleaned env paths patterns) _ refl
        (passed (is_stray env paths (env.strip directory)) _ _
          (passed (is_foreign env paths directory) _ _ h).1).1

  -- the channel has the checked settings
  abbrev HasSettings : String × List String → InputChannel → State → Type 0
  HasSettings settings channel s =
      (channel.directory ≡ settings.0) × (channel.patterns ≡ settings.1)

  store_channel-HasSettings :
      (channel : InputChannel) (s : State)
      → Ensures
          (HasSettings (channel.directory, channel.patterns))
          (store_channel env paths channel)
          s
  unfolding store_channel save_channel
  store_channel-HasSettings channel s saved h =
      elim (Bool-cases (
        exists
          (λ r.
            (r.name == channel.name || r.directory == channel.directory)
            && not (r.id == channel.id))
          s.tables.channels)) [ inl e ↦ cc | inr e ↦ (cc, cc) ]

  keep_channel-HasSettings :
      (channel : InputChannel) (s : State)
      → Ensures
          (HasSettings (channel.directory, channel.patterns))
          (keep_channel env paths channel)
          s
  unfolding keep_channel
  keep_channel-HasSettings channel s =
      bind-Ensures (HasSettings (channel.directory, channel.patterns))
        (HasSettings (channel.directory, channel.patterns)) (store_channel env paths channel) _ s
        (store_channel-HasSettings channel s)
        (λ saved t k.
          bind-Ensures (λ _ _. Unit) (HasSettings (channel.directory, channel.patterns))
            (make_channel_directory env paths saved.directory) _ t (λ _ _. tt)
            (λ _ u _ c e.
              let same : saved ≡ c = cc in
              subst (λ x. HasSettings (channel.directory, channel.patterns) x u) same k))

  create_validated-HasSettings :
      (q : InputChannelCreate) (settings : String × List String) (s : State)
      → Ensures (HasSettings settings) (create_validated env paths q settings) s
  unfolding create_validated
  create_validated-HasSettings q settings s = elim (Bool-cases (env.strip q.name == "")) [
    | inl e ↦ rw e (λ c k. cc)
    | inr e ↦ rw e (keep_channel-HasSettings _ _)
  ]

  update_validated-HasSettings :
      (q : InputChannelUpdate) (channel : InputChannel) (settings : String × List String)
      (s : State)
      → Ensures (HasSettings settings) (update_validated env paths q channel settings) s
  unfolding update_validated
  update_validated-HasSettings q channel settings s =
      bind-Ensures (λ _ _. Unit) (HasSettings settings) (new_name env paths q.name channel) _ s
        (λ _ _. tt) (λ name t _. keep_channel-HasSettings _ t)

  -- a handler on checked settings
  validated-IsContained :
      (directory : String) (patterns : List String)
      (f : String × List String → Handler env InputChannel) (s : State)
      → ((settings : String × List String) (t : State)
          → Ensures (HasSettings settings) (f settings) t)
      → Ensures
          (λ c _. IsContained env paths s.files c.directory c.patterns)
          (checked_settings env paths directory patterns >>= f)
          s
  validated-IsContained directory patterns f s h =
      bind-Ensures (λ settings _. IsContained env paths s.files settings.0 settings.1)
        (λ c _. IsContained env paths s.files c.directory c.patterns)
        (checked_settings env paths directory patterns) f s
        (λ settings e. validate-IsContained directory patterns s.files e)
        (λ settings t sound c e. let (d, p) = h settings t c e in rw (d, p) sound)

  create_input_channel-IsContained :
      (q : InputChannelCreate) (s : State)
      → Ensures
          (λ c _. IsContained env paths s.files c.directory c.patterns)
          (create_input_channel env paths q)
          s
  unfolding create_input_channel
  create_input_channel-IsContained q s =
      validated-IsContained q.directory q.patterns (create_validated env paths q) s
        (create_validated-HasSettings q)

  update_found-IsContained :
      (q : InputChannelUpdate) (channel : Option InputChannel) (s : State)
      → Ensures
          (λ c _. IsContained env paths s.files c.directory c.patterns)
          (update_found env paths q channel)
          s
  unfolding update_found
  update_found-IsContained q none s = λ c e. cc
  update_found-IsContained q (some channel) s =
      validated-IsContained (given q.directory channel.directory)
        (given q.patterns channel.patterns) (update_validated env paths q channel) s
        (update_validated-HasSettings q channel)

  update_input_channel-IsContained :
      (id : String) (q : InputChannelUpdate) (s : State)
      → Ensures
          (λ c _. IsContained env paths s.files c.directory c.patterns)
          (update_input_channel env paths id q)
          s
  unfolding update_input_channel ◌>>=◌
  update_input_channel-IsContained id q s =
      update_found-IsContained q (get_channel id s.tables.channels) s

  abbrev pub save_request : ChannelRequest → Handler env InputChannel
  save_request (creation q) = create_input_channel env paths q
  save_request (change id q) = update_input_channel env paths id q

  -- When a creation or an update of a channel answers with a channel, whichever settings the request
  -- names, its directory resolves, in the files of the call, to a path inside the root of the inputs
  -- other than the root itself, and it has at least one pattern, none with a slash or a backslash.
  pub save_request-IsContained :
      (q : ChannelRequest) (s : Service env.pipeline.Files) (c : InputChannel)
      → (save_request q s).0 ≡ ok c
      → IsContained env paths s.files c.directory c.patterns
  save_request-IsContained (creation q) s c e = create_input_channel-IsContained q s c e
  save_request-IsContained (change id q) s c e = update_input_channel-IsContained id q s c e
