-- ===== src/Store/Database.antt =====
-- The tables that the pipeline reaches through `JobStore`, and its cipher
-- (src/document_core/store.py).
use document_feeder.Prelude.{String}
use document_feeder.Secrets.Cipher.{SecretCipher}
use document_feeder.Secrets.Redaction.{redact_text}
use document_feeder.Store.Jobs.{JobTable}
use document_feeder.Store.Events.{EventTable}
use document_feeder.Store.Targets.{TargetTable}
use document_feeder.Store.Rules.{RuleTable}
use document_feeder.Store.Settings.{SettingTable}

pub record Database : Type 0 where
  pub jobs : JobTable
  pub events : EventTable
  pub targets : TargetTable
  pub rules : RuleTable
  pub settings : SettingTable
  pub cipher : SecretCipher

-- `JobStore.redact` of a text
unfoldable pub redact : Database → String → String
redact db s = redact_text db.cipher.known s
