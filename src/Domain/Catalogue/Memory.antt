-- ===== src/Domain/Catalogue/Memory.antt =====
-- domain/catalogue/memory.py: the entries of the `memory` namespace, with their prose.
use settings_api.Prelude.{String, List, [], ◌∷◌, some, true}
use settings_api.Prelude.Int.{pos}
use settings_api.Domain.Value.{int, str}
use settings_api.Domain.Types.{SettingDef, SettingType, existing, proposed, refuse, use_default}
use settings_api.Domain.Catalogue.Entry.{entry}

abbrev pub namespace : String
namespace = "memory"

abbrev retrieval_limit : SettingDef
retrieval_limit =
    record (entry namespace "retrieval_limit" SettingType.int (int (pos 10)) use_default existing) {
      summary = "How many memories one retrieval may return.";
      description =
          "Zero does not make the assistant forget you: it still sees the topic index, which is the list of subjects it knows something about. It simply brings nothing in until asked, and asking -- a search -- still brings back the best match. Higher numbers cost context and can bury a relevant memory among merely related ones.";
      minimum = some (pos 0);
      maximum = some (pos 100);
      operator_clampable = true;
      conservative_values = int (pos 10) ∷ [];
      origin_note =
          "Read by the LUCY hub: it is the size of a recall that names none, to at most twenty. memory-api itself takes a limit on each request and does not read this.";
    }

abbrev retrieval_trust_floor : SettingDef
retrieval_trust_floor =
    record (entry namespace "retrieval_trust_floor" SettingType.enum (str "inferred") refuse
      existing) {
        summary = "How much an assistant may rely on, from what you said to what it worked out.";
        description =
            "`stated` uses only what you told it. `observed` adds what it saw directly. `inferred` adds what it worked out, which is the most useful and the most likely to be wrong about you.\n\nNothing distilled from a web page or a document is ever retrieved at any setting until somebody confirms it, and that is not configurable: a memory store is a place an attacker would like to write, and permanence is what makes it worth attacking.\n\nIt refuses rather than falling back, because there is no safe guess: landing below what you chose loses memories you wanted used, and landing above uses guesses you did not agree to. Retrieving nothing for one turn is recoverable; quietly widening what an assistant relies on is not.";
        choices = "stated" ∷ "observed" ∷ "inferred" ∷ [];
        origin_note =
            "Read by the LUCY hub, which leaves out of a recall whatever is below the floor and says how many it left out. memory-api already excludes `untrusted` until it is confirmed.";
      }

abbrev write_importance_floor : SettingDef
write_importance_floor =
    record (entry namespace "write_importance_floor" SettingType.int (int (pos 1)) refuse
      existing) {
        summary = "How significant something has to be before it is worth remembering.";
        description =
            "Low keeps almost everything and makes the store noisy. High keeps only what matters and quietly loses things you would have wanted.\n\nIt refuses rather than falling back: writing nothing during an outage is recoverable, and writing down more about a person than they agreed to is not.\n\nOne, the default, keeps everything, which is what memory-api did before anybody could choose: memory-api cannot tell a default from a choice, so a higher default would start refusing memories for people who never set this. A correction is never refused for it: it replaces something already remembered.";
        minimum = some (pos 1);
        maximum = some (pos 10);
        operator_clampable = true;
        origin_note =
            "memory-api refuses a new memory whose importance (1 to 10, 5 when the write names none) is below this, with 422 `below-importance-floor`; one ADD below it refuses a whole reconciled batch. A correction is not held to it. When the floor cannot be read, a write that adds a memory is a 503 and nothing is stored.";
      }

abbrev recency_half_life_days : SettingDef
recency_half_life_days =
    record (entry namespace "recency_half_life_days" SettingType.int (int (pos 30)) use_default
      existing) {
        summary = "How quickly an unused memory stops being offered first.";
        description =
            "Ranking, not deletion: nothing is removed by getting old, it simply stops coming up before newer things. The clock runs from when a memory was last *used*, not when it was written, so a stable fact you rely on constantly stays near the top while a one-off from yesterday sinks.";
        minimum = some (pos 1);
        maximum = some (pos 3650);
        operator_clampable = true;
        conservative_values = int (pos 30) ∷ [];
        origin_note = "memory-api has a 30-day half-life compiled in (`store/sql.py`).";
      }

abbrev consolidation : SettingDef
consolidation =
    record (entry namespace "consolidation" SettingType.enum (str "on_session_end") refuse
      proposed) {
        summary = "When an assistant tidies what it has remembered.";
        description =
            "Consolidation merges near-duplicates, writes better summaries for a subject, and decides that two things it learned separately are the same thing. `continuous` keeps the store tidiest and costs the most; `never` leaves it exactly as written.\n\nIt never runs while you are waiting for an answer -- always in the background, because a tidy-up on the response path is a slower reply for no benefit you can see.\n\nIt refuses rather than falling back. Consolidation rewrites memories, and rewriting somebody's memories without being able to read whether they wanted that is not a safe guess in either direction.";
        choices = "never" ∷ "on_session_end" ∷ "continuous" ∷ [];
        origin_note =
            "Not read by memory-api. Its idle-merge pass runs in the background on a deployment-wide clock (`MEMORY_CONSOLIDATE_IDLE_SECONDS`, `MEMORY_CONSOLIDATE_INTERVAL_SECONDS`, zero interval for off) with no person's token to read this with, and it has no session-end signal for `on_session_end` to mean anything. Honouring it needs the hub to report a session's end and the pass to read settings without a user token.";
      }

abbrev erasure_grace_days : SettingDef
erasure_grace_days =
    record (entry namespace "erasure_grace_days" SettingType.int (int (pos 30)) refuse existing) {
      summary = "How long a forgotten memory can still be brought back.";
      description =
          "Forgetting hides a memory immediately. This is how long you have to change your mind before it is deleted for good, its search entry removed and the journal pages that held it overwritten.\n\nZero erases at the next sweep. It refuses rather than falling back during an outage, because both directions are wrong: guessing shorter destroys something recoverable, and guessing longer keeps something a person asked to be rid of.";
      minimum = some (pos 0);
      maximum = some (pos 365);
      operator_clampable = true;
      origin_note = "memory-api has MEMORY_FORGET_GRACE_SECONDS, default 30 days.";
    }

abbrev block_char_limit : SettingDef
block_char_limit =
    record (entry namespace "block_char_limit" SettingType.int (int (pos 16000)) use_default
      existing) {
        summary = "How large the always-in-context block may be.";
        description =
            "The block is the handful of sentences an assistant carries in every single conversation. It is small on purpose: everything in it is paid for on every turn, and a block that grows without limit is a tax on every reply.";
        minimum = some (pos 256);
        maximum = some (pos 24000);
        operator_clampable = true;
        conservative_values = int (pos 16000) ∷ [];
        origin_note = "memory-api's BlockInput defaults char_limit to 16000, ceiling 24000.";
      }

abbrev pub settings : List SettingDef
settings =
    retrieval_limit ∷ retrieval_trust_floor ∷ write_importance_floor ∷ recency_half_life_days
    ∷ consolidation ∷ erasure_grace_days ∷ block_char_limit ∷ []
