-- ===== src/Domain/Catalogue/Spotify.antt =====
-- domain/catalogue/spotify.py: the entries of the `spotify` namespace, with their prose.
use settings_api.Prelude.{String, List, [], ◌∷◌, some, true, false}
use settings_api.Prelude.Int.{pos}
use settings_api.Domain.Value.{null, bool, int, str}
use settings_api.Domain.Types.{SettingDef, SettingType, existing, profile, refuse, use_default}
use settings_api.Domain.Catalogue.Entry.{entry}

abbrev pub namespace : String
namespace = "spotify"

abbrev default_market : SettingDef
default_market =
    record (entry namespace "default_market" SettingType.str null use_default existing) {
      summary = "Which country's catalogue track searches resolve against by default.";
      description =
          "An ISO 3166-1 alpha-2 code such as `GB` or `PT`. It decides which recordings exist, which are playable, and which of several regional releases a search resolves to -- so the same query genuinely returns different tracks in different markets.\n\nNull means 'let Spotify decide from the token', which is what spotify-api does today and is therefore the conservative fallback: an outage changes nothing rather than quietly resolving somebody's playlist against the wrong country.\n\nUpper case only. spotify-api normalises what it is given, and a catalogue that accepted `gb` would store one spelling and hand out another.";
      scope = profile;
      nullable = true;
      max_chars = some (pos 2);
      pattern = some "^[A-Z]{2}$";
      conservative_values = null ∷ [];
      origin_note = "spotify-api's `default_market`, an ISO 3166-1 alpha-2 code or None.";
    }

abbrev max_batch_size : SettingDef
max_batch_size =
    record (entry namespace "max_batch_size" SettingType.int (int (pos 50)) use_default existing) {
      summary = "How many tracks one resolve call may carry.";
      description =
          "Larger batches are fewer round trips and a longer wait for the first answer; smaller ones are the reverse. Two hundred is the owning service's own ceiling, not a number chosen here.\n\nFalling back to fifty is safe because batch size is a throughput choice and not a restriction: nobody expresses a privacy preference by resolving fewer tracks at a time.";
      scope = profile;
      minimum = some (pos 1);
      maximum = some (pos 200);
      operator_clampable = true;
      conservative_values = int (pos 50) ∷ [];
      origin_note = "spotify-api's `max_batch_size`, `Field(ge=1, le=200)`, default 50.";
    }

abbrev confirm_timeout_seconds : SettingDef
confirm_timeout_seconds =
    record (entry namespace "confirm_timeout_seconds" SettingType.int (int (pos 15)) use_default
      existing) {
        summary = "How long a pending action waits for a human to confirm before giving up.";
        description =
            "The window between 'shall I add these forty tracks' and the answer. Somebody driving an assistant by voice while doing something else wants longer than somebody sitting at a keyboard.\n\nA timeout that expires abandons the action, so falling back to fifteen seconds during an outage risks abandoning something a person would have confirmed at sixty. That fails safe: the action does not happen, and nothing was written to anybody's library that they did not agree to.";
        scope = profile;
        minimum = some (pos 5);
        maximum = some (pos 300);
        operator_clampable = true;
        conservative_values = int (pos 15) ∷ [];
        origin_note =
            "spotify-api's `confirm_timeout_seconds`, `Field(gt=0, le=300)`, default 15.0. The ceiling is the owning service's; a catalogue allowing more would let a person set a value spotify-api refuses.";
      }

abbrev job_retention_hours : SettingDef
job_retention_hours =
    record (entry namespace "job_retention_hours" SettingType.int (int (pos 1)) use_default
      existing) {
        summary = "How long a finished playlist job stays readable before it is reaped.";
        description =
            "Overrides `common.job_retention_hours` for this namespace, and exists as its own entry for one reason: spotify-api caps its own TTL at 24 hours, and the common setting allows a week. A catalogue that offered seven days here would let a person set a value the service they were configuring refuses.\n\nWorth knowing before relying on it: spotify-api's job store is in memory, so these records are lost on restart and are not shared between replicas. This sets a ceiling on how long they live, not a floor.";
        minimum = some (pos 0);
        maximum = some (pos 24);
        operator_clampable = true;
        conservative_values = int (pos 1) ∷ [];
        origin_note = "spotify-api's `job_ttl_seconds`, `Field(gt=0, le=86400)`, default 3600.";
      }

abbrev default_device : SettingDef
default_device =
    record (entry namespace "default_device" SettingType.str null use_default existing) {
      summary = "Which speaker or computer to play on when the request does not name one.";
      description =
          "A Spotify device id, not a nickname. Null means 'whatever is already active', which is what spotify-api does today and is therefore the conservative fallback: an outage does not start blasting a kitchen speaker somebody turned off.\n\nThis is playback routing, not what the model sees. Whether now-playing appears in the prompt is Lucy's `feeds_music_*` switches.";
      scope = profile;
      nullable = true;
      max_chars = some (pos 128);
      pattern = some "^[A-Za-z0-9][A-Za-z0-9._:-]{0,127}$";
      conservative_values = null ∷ [];
      origin_note =
          "Read by the lucy hub, which passes it as the device when a music action names none. spotify-api itself plays on whichever device Spotify last used and does not read it.";
    }

abbrev shuffle_on_play : SettingDef
shuffle_on_play =
    record (entry namespace "shuffle_on_play" SettingType.bool (bool false) use_default existing) {
      summary = "Whether a new play starts shuffled unless the request says otherwise.";
      description =
          "On shuffles a play that names what to play, once it has started. Off does nothing at all: the device keeps whatever shuffle it last had, so a shuffle chosen in the Spotify app is not undone by a setting nobody touched. Resuming what was already loaded never applies it.\n\nOff is conservative and is today's behaviour, so an outage never shuffles a playlist somebody had carefully ordered.";
      scope = profile;
      conservative_values = bool false ∷ [];
      origin_note =
          "spotify-api turns shuffle on once a new play is confirmed, when the request does not say. Off sends Spotify nothing.";
    }

abbrev repeat_mode : SettingDef
repeat_mode =
    record (entry namespace "repeat_mode" SettingType.enum (str "off") use_default existing) {
      summary = "Whether a new play repeats the track, the queue, or neither.";
      description =
          "`track` loops one song and `context` loops the album or playlist, on a play that names what to play. `off` does nothing at all: the device keeps whatever repeat it last had. Resuming what was already loaded never applies it.\n\n`off` is conservative because it is today's behaviour and because looping a track somebody did not ask to loop is the worse of the two surprises.";
      scope = profile;
      choices = "off" ∷ "track" ∷ "context" ∷ [];
      conservative_values = str "off" ∷ [];
      origin_note =
          "spotify-api sets `track` or `context` once a new play is confirmed, when the request does not say. `off` sends Spotify nothing.";
    }

abbrev allow_explicit : SettingDef
allow_explicit =
    record (entry namespace "allow_explicit" SettingType.bool (bool true) refuse existing) {
      summary = "Whether tracks marked explicit may be returned and played.";
      description =
          "Off, a track the catalogue marks explicit is left out of results and refused for playback, and the clean version is offered where one exists. The flag is the label the rights holder applied, so it is imperfect in both directions -- this narrows what is offered rather than promising anything about content.\n\n**This refuses rather than falling back.** On is the default because it is how the service works, so landing on it during an outage would play explicit material to somebody who had turned it off -- often on a speaker, in a room, in front of the people they turned it off for. A search that fails is retried; a track already playing is not.";
      scope = profile;
      origin_note =
          "spotify-api filters lookup candidates and checks named track URIs before play or queue commands. Album and playlist contexts and resume are not inspected.";
    }

abbrev pub settings : List SettingDef
settings =
    default_market ∷ max_batch_size ∷ confirm_timeout_seconds ∷ job_retention_hours ∷ default_device
    ∷ shuffle_on_play ∷ repeat_mode ∷ allow_explicit ∷ []
