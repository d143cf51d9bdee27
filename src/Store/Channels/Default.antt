-- ===== src/Store/Channels/Default.antt =====
-- The default channel is there once.
use document_feeder.Prelude.{
  ℕ, String, ◌≡◌, refl, true, false, not, ◌&&◌, ◌||◌, none, some, [], ◌∷◌, ◌++◌, arith, ◌==◌,
  eq_refl, exists, find_first, Bool-cases, Option-cases, inl, inr, ok,
}
use document_feeder.Models.Target.{InputChannel}
use document_feeder.Table.{has}
use document_feeder.Table.Reads.{find_first-append, exists-find_first}
use document_feeder.Store.Channels.{
  ChannelTable, channel_key, is_hotfolder, default_channel, save_channel, ensure_default_channel,
}

again :
    (t : ChannelTable) (c : InputChannel)
    → find_first is_hotfolder t ≡ some c
    → (later last : ℕ) (other : String) → ensure_default_channel later last other t ≡ (ok c, t)
unfolding ensure_default_channel
again t c f later last other = rw f refl

hotfolder-append :
    (t : ChannelTable) (c : InputChannel)
    → find_first is_hotfolder t ≡ none
    → is_hotfolder c ≡ true
    → find_first is_hotfolder (t ++ c ∷ []) ≡ some c
hotfolder-append t c f h =
    ground (arith, find_first-append is_hotfolder t c, exists-find_first is_hotfolder t)

-- A call that returns a channel leaves a table in which every later call returns this channel and
-- writes nothing. A new identifier is not in the table.
pub ensure_default_channel-twice :
    (created now : ℕ) (id : String) (t t' : ChannelTable) (c : InputChannel)
    → has channel_key id t ≡ false
    → ensure_default_channel created now id t ≡ (ok c, t')
    → (later last : ℕ) (other : String) → ensure_default_channel later last other t' ≡ (ok c, t')
unfolding ensure_default_channel save_channel default_channel
ensure_default_channel-twice created now id t t' c new e later last other =
    again t' c
      (elim (Option-cases (find_first is_hotfolder t)) [
        | inr (d, f) ↦ let e' = rw f at e in cc
        | inl f ↦
            let row = record (default_channel created id) { updated_at = now } in
            elim (Bool-cases (
              exists
                (λ r. (r.name == row.name || r.directory == row.directory) && not (r.id == row.id))
                t)) [
                  | inl taken ↦ let e' = rw (f, taken) at e in cc
                  | inr free ↦
                      let e' = rw (f, free, new) at e in
                      cc (hotfolder-append t row f (eq_refl "hotfolder"))
                ]
      ])
      later last other
