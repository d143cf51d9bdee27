-- ===== src/Tests/Channels.antt =====
-- Requests on input channels (src/document_core/api.py).
use document_feeder.Prelude.{ℕ, suc, refl, false, none, [], ◌∷◌, ok}
use document_feeder.Models.Target.{InputChannel}
use document_feeder.Prelude.Exec.{◌>>=◌}
use document_feeder.Store.Channels.{save_channel}
use document_feeder.Web.Channels.{
  PathLibrary, InputChannelCreate, create_input_channel, validate_channel_settings,
  resolve_channel_directory, store_channel, make_channel_directory,
}
use document_feeder.Web.Channels.Contained.{IsContained, creation, save_request-IsContained}
use document_feeder.Tests.Web.{world, service}

-- Paths of one part; a directory is counted.
abbrev paths : PathLibrary ℕ
paths = record {
  parts = λ p. p ∷ [];
  is_absolute = λ p. false;
  as_posix = λ p. p;
  mkdir = λ p files. ok (suc files);
}

abbrev scanner : InputChannelCreate
scanner = record {
  name = "Scanner";
  directory = "scan";
  patterns = "*.pdf" ∷ "" ∷ [];
  enabled = false;
}

abbrev scanner_channel : InputChannel
scanner_channel = record {
  id = "u0";
  name = "Scanner";
  kind = "hotfolder";
  directory = "scan";
  patterns = "*.pdf" ∷ [];
  enabled = false;
  last_ingested_at = none;
  last_error = none;
  created_at = 1000;
  updated_at = 1002;
}

save_request-IsContained_example : IsContained world paths 0 "scan" ("*.pdf" ∷ [])
unfolding create_input_channel validate_channel_settings resolve_channel_directory ◌>>=◌
    save_channel make_channel_directory store_channel
save_request-IsContained_example =
    save_request-IsContained world paths (creation scanner) service scanner_channel refl
