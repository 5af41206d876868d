-- ===== src/Domain/Catalogue/Lucy.antt =====
-- domain/catalogue/lucy: the `lucy` namespace, its entries joined in the order of the package.
pub mod Namespace
pub mod Model
pub mod Manner
pub mod Context
pub mod Decisions
pub mod Limits
pub mod Helpers
pub mod Permissions
pub mod Unattended
pub mod Recall
pub mod Sessions
pub mod Reliability
pub mod Feeds
use settings_api.Prelude.{List, ◌++◌}
use settings_api.Domain.Types.{SettingDef}
use Model
use Manner
use Context
use Decisions
use Limits
use Helpers
use Permissions
use Unattended
use Recall
use Sessions
use Reliability
use Feeds

abbrev pub settings : List SettingDef
settings =
    Model.settings ++ Manner.settings ++ Context.settings ++ Decisions.settings ++ Limits.settings
    ++ Helpers.settings ++ Permissions.settings ++ Unattended.settings ++ Recall.settings
    ++ Sessions.settings ++ Reliability.settings ++ Feeds.settings
