-- ===== src/Domain/Catalogue/Keyring.antt =====
-- domain/catalogue/keyring.py: the entries of the `keyring` namespace, with their prose.
use settings_api.Prelude.{String, List, [], ◌∷◌, some, true, false}
use settings_api.Prelude.Int.{pos}
use settings_api.Domain.Value.{bool, int}
use settings_api.Domain.Types.{SettingDef, SettingType, existing, refuse, use_default}
use settings_api.Domain.Catalogue.Entry.{entry}

abbrev pub namespace : String
namespace = "keyring"

abbrev session_ttl_days : SettingDef
session_ttl_days =
    record (entry namespace "session_ttl_days" SettingType.int (int (pos 14)) use_default
      existing) {
        summary = "How long a session survives without being used before it stops working.";
        description =
            "The idle timeout. Using a session refreshes it; leaving it alone for this long ends it. keyring's separate absolute ceiling still applies, so this cannot keep a session alive indefinitely.\n\nThe fallback is worth being honest about, because 14 is not the safest value -- 1 is. A person who chose a one-day timeout and hits an outage gets fourteen days until this service is back. The alternative is refusing, and refusing here means nobody in the family can authenticate while settings-api is down: it would make this service a hard dependency of every login, which is a far larger failure than a bounded, temporary lengthening of one timeout.";
        minimum = some (pos 1);
        maximum = some (pos 90);
        operator_clampable = true;
        conservative_values = int (pos 14) ∷ [];
        origin_note = "keyring's `session_ttl_seconds`, default 14 * 24 * 3600.";
      }

abbrev max_sessions : SettingDef
max_sessions =
    record (entry namespace "max_sessions" SettingType.int (int (pos 20)) use_default existing) {
      summary = "How many sessions this person may hold at once before the oldest is dropped.";
      description =
          "keyring trims rather than refuses: logging in on a twenty-first device ends the least recently used session instead of failing the login. Lowering this is how somebody says 'I use two devices, and a third session means something is wrong'.\n\nThe maximum is the operator's cap rather than a number with meaning of its own. A person may lower it and may not raise it, which is the general rule for every cap in this catalogue.";
      minimum = some (pos 1);
      maximum = some (pos 20);
      operator_clampable = true;
      conservative_values = int (pos 20) ∷ [];
      origin_note = "keyring's `max_sessions_per_account`, default 20.";
    }

abbrev email_notifications : SettingDef
email_notifications =
    record (entry namespace "email_notifications" SettingType.bool (bool true) use_default
      existing) {
        summary = "Whether keyring may email this person at all.";
        description =
            "The master switch. With it off, keyring sends nothing -- no new-session notices, no security notices -- and this person finds out about their account only by looking.\n\nOn is the conservative value and is therefore the one an outage lands on: a notification somebody did not want is an annoyance, and a missed notice that somebody else signed in is the failure this exists to prevent. Password resets are not covered by this and cannot be: an email a person explicitly asked for by clicking 'reset' is not a notification.";
        conservative_values = bool true ∷ [];
        origin_note =
            "keyring reads it at every login and before every credential change. False stops both notices from being queued; invites and password resets are not governed.";
      }

abbrev notify_on_new_session : SettingDef
notify_on_new_session =
    record (entry namespace "notify_on_new_session" SettingType.bool (bool false) use_default
      existing) {
        summary = "Whether to say so when a new session is created on this account.";
        description =
            "A sign-in from a device this account has not used before is the earliest signal a person gets that somebody else has their password. On, every login is mailed to the account's own address with the time and nothing else.\n\nOff by default, because keyring did not announce sessions before this existed. Both values are safe to land on during an outage: neither widens access.\n\nSubordinate to `email_notifications`: with that off, this changes nothing.";
        conservative_values = bool false ∷ bool true ∷ [];
        origin_note =
            "keyring reads it at login. On, and with email_notifications on, a successful login queues an email carrying the time only: no token, session id or address.";
      }

abbrev require_reauth_for_credential_changes : SettingDef
require_reauth_for_credential_changes =
    record (entry namespace "require_reauth_for_credential_changes" SettingType.bool (bool false)
      refuse existing) {
        summary = "Whether changing a stored credential requires proving the password again.";
        description =
            "On, adding, replacing or removing a stored credential -- including starting the consent that will store one -- means entering the account password again, even inside a live session. It is the control that stops a stolen session token from becoming a stolen Spotify account, a stolen mailbox and a stolen everything else in one pass. A service acting for you can never give the password, so with this on you connect and disconnect things yourself.\n\nOff by default, because keyring did not re-challenge before this existed.\n\nTwo things make this the most protected entry in the catalogue. It is **owner-writable only**, so it can be changed only with a token the person minted for settings itself -- a service holding this person's token cannot turn it off, which matters because the service most likely to want it off is the one about to write a credential. And it **refuses rather than falling back**: if this service is unreachable, keyring does not assume the answer is the permissive one: a change without the password is refused until it is back, and one that carries the right password goes ahead, because that satisfies it either way.";
        owner_writable_only = true;
        origin_note =
            "keyring reads it before every credential change. On, adding, replacing or removing a credential needs `current_password`, checked like a login, wrong attempts counting toward the lockout; the delegated service routes are refused outright. Refused during an outage, a change without the password is 503 and one with the right password goes ahead.";
      }

abbrev session_absolute_ttl_days : SettingDef
session_absolute_ttl_days =
    record (entry namespace "session_absolute_ttl_days" SettingType.int (int (pos 90)) use_default
      existing) {
        summary = "The longest a session may live, however often it is used.";
        description =
            "`session_ttl_days` ends a session that goes unused; this ends one that never does. Without it a session used daily would live for ever, and 're-authenticate occasionally' would be a thing the system never actually asked for.\n\nkeyring refuses an absolute ceiling below its idle timeout, so a person setting this below `session_ttl_days` will have that write refused by keyring rather than by this service -- the two cannot be cross-validated here, because a catalogue entry is checked on its own and the other value may not even be set. It is a real edge and the honest place to catch it is the service that owns the rule.";
        minimum = some (pos 1);
        maximum = some (pos 365);
        operator_clampable = true;
        conservative_values = int (pos 90) ∷ [];
        origin_note = "keyring's `session_absolute_ttl_seconds`, default 90 * 24 * 3600.";
      }

abbrev notify_on_credential_change : SettingDef
notify_on_credential_change =
    record (entry namespace "notify_on_credential_change" SettingType.bool (bool false) use_default
      existing) {
        summary = "Whether to say so when a stored credential is added, replaced or removed.";
        description =
            "The counterpart to `notify_on_new_session`, for the event a step further in: somebody already inside the account taking or replacing the keys to everything else. A credential write is rare and deliberate, so a notice about one is almost never noise, and the one time it is unexpected it is the only warning there will be.\n\nOff by default, because keyring sent no such notice before this existed; both values are safe to land on during an outage.\n\nSubordinate to `email_notifications`: with that off, this changes nothing.";
        conservative_values = bool false ∷ bool true ∷ [];
        origin_note =
            "keyring reads it before every credential change and at the OAuth callback. On, and with email_notifications on, the owner is mailed the kind of change, the time and who made it, never which credential or any part of one.";
      }

abbrev pub settings : List SettingDef
settings =
    session_ttl_days ∷ max_sessions ∷ email_notifications ∷ notify_on_new_session
    ∷ require_reauth_for_credential_changes ∷ session_absolute_ttl_days
    ∷ notify_on_credential_change ∷ []
