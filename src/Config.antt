-- ===== src/Config.antt =====
-- src/pyconduit/config.py: the settings, as records. `F` is the type
-- of the settings that are floats. Integers are natural numbers.
pub mod Loading
use pyconduit.Base.{ℕ, String, Bool, Option, List}

pub data AuditFormat : Type 0 where
  text json : AuditFormat

pub record ServerConfig : Type 0 where
  pub host : String
  pub port : ℕ
  pub brand_title : String
  pub allowed_origins : List String
  pub client_ip_header : Option String
  pub security_headers : Bool
  pub max_message_chars : ℕ

pub record AuthConfig : Type 0 where
  pub mode : String
  pub header : String
  pub dev_default_user : String
  pub users_file : String
  pub credentials_file : String

pub record ReconnectConfig (F : Type 0) : Type 0 where
  pub initial_seconds : F
  pub max_seconds : F
  pub factor : F

pub record XmppConfig (F : Type 0) : Type 0 where
  pub host : String
  pub port : ℕ
  pub tls : Bool
  pub verify_certs : Bool
  pub idle_timeout_seconds : F
  pub reconnect : ReconnectConfig F

pub record MucConfig : Type 0 where
  pub discovery_servers : List String

pub record HistoryConfig : Type 0 where
  pub page_size : ℕ

pub record UiConfig : Type 0 where
  pub sound_enabled_default : Bool

pub record AuditDestination : Type 0 where
  pub type : String
  pub path : Option String
  pub format : AuditFormat

pub record AuditConfig : Type 0 where
  pub destinations : List AuditDestination

pub record Config (F : Type 0) : Type 0 where
  pub server : ServerConfig
  pub auth : AuthConfig
  pub xmpp : XmppConfig F
  pub muc : MucConfig
  pub history : HistoryConfig
  pub ui : UiConfig
  pub audit : AuditConfig
