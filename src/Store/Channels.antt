-- ===== src/Store/Channels.antt =====
-- `input_channels` (src/document_core/store.py): the directories that documents come from.
pub mod Default
use Prim.Native.String.{compare}
use text.Mathlib.Text.{is_le}
use document_feeder.Prelude.{
  ℕ, String, Bool, true, false, not, ◌&&◌, ◌||◌, Option, none, some, List, [], ◌∷◌, ◌==◌, exists,
  find_first, select, if◌then◌else◌, Outcome, ok, raise,
}
use document_feeder.Prelude.Sorting.{sort_by}
use document_feeder.Models.Target.{InputChannel}
use document_feeder.Table.{lookup, has, modify, remove, add}
use document_feeder.Store.Jobs.{StoreError, integrity_error}

-- The columns of a row are the fields of the channel.
abbrev pub ChannelTable : Type 0
ChannelTable = List InputChannel

abbrev pub channel_key : InputChannel → String
channel_key c = c.id

unfoldable pub list_channels : Bool → ChannelTable → List InputChannel
list_channels enabled_only t =
    sort_by (λ a b. is_le (compare a.name b.name))
      (if enabled_only then select (λ c. c.enabled) t else t)

unfoldable pub get_channel : String → ChannelTable → Option InputChannel
get_channel id t = lookup channel_key id t

-- `save_channel`: names and directories are unique
unfoldable pub save_channel :
    ℕ → InputChannel → ChannelTable → Outcome StoreError InputChannel × ChannelTable
save_channel now channel t =
    let row = record channel { updated_at = now } in
    if exists (λ r. (r.name == row.name || r.directory == row.directory) && not (r.id == row.id)) t
    then (raise integrity_error, t)
    else (
      ok row,
      if has channel_key row.id t
          then modify channel_key row.id (λ _. row) t
          else add channel_key row t,
    )

unfoldable pub delete_channel : String → ChannelTable → Bool × ChannelTable
delete_channel id t = (has channel_key id t, remove channel_key id t)

-- the channel that `ensure_default_channel` makes: `created` is the clock of its construction
unfoldable pub default_channel : ℕ → String → InputChannel
default_channel created id = record {
  id = id;
  name = "Standard-Hotfolder";
  kind = "hotfolder";
  directory = "hotfolder";
  patterns = "*" ∷ [];
  enabled = true;
  last_ingested_at = none;
  last_error = none;
  created_at = created;
  updated_at = created;
}

unfoldable pub channel_or_default :
    Option InputChannel
    → ℕ
    → ℕ
    → String
    → ChannelTable
    → Outcome StoreError InputChannel × ChannelTable
unfolding save_channel default_channel
channel_or_default (some c) created now id t = (ok c, t)
channel_or_default none created now id t = save_channel now (default_channel created id) t

abbrev pub is_hotfolder : InputChannel → Bool
is_hotfolder c = c.directory == "hotfolder"

-- `ensure_default_channel`
unfoldable pub ensure_default_channel :
    ℕ → ℕ → String → ChannelTable → Outcome StoreError InputChannel × ChannelTable
unfolding channel_or_default
ensure_default_channel created now id t =
    channel_or_default (find_first is_hotfolder t) created now id t
