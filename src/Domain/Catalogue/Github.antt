-- ===== src/Domain/Catalogue/Github.antt =====
-- domain/catalogue/github.py: the entries of the `github` namespace, with their prose.
use settings_api.Prelude.{String, List, [], ◌∷◌, some, true, false}
use settings_api.Prelude.Int.{pos}
use settings_api.Domain.Value.{null, bool, int, str}
use settings_api.Domain.Types.{
  SettingDef, SettingType, existing, profile, refuse, use_default, with_approval,
}
use settings_api.Domain.Catalogue.Entry.{entry}

abbrev pub namespace : String
namespace = "github"

abbrev default_owner : SettingDef
default_owner = record (entry namespace "default_owner" SettingType.str null use_default existing) {
  summary = "Which account or organisation new repositories are created under.";
  description =
      "A GitHub login or organisation name, as it appears in a repository's address. Null means the connected account itself, which is what GitHub does when no owner is given and is therefore the conservative fallback: an outage never puts a repository in an organisation the person did not choose.\n\nThis does not grant anything. Creating under an organisation still needs the connected account to be allowed to, and Lucy still asks before creating.";
  scope = profile;
  nullable = true;
  max_chars = some (pos 39);
  pattern = some "^[A-Za-z0-9](?:[A-Za-z0-9-]{0,38})$";
  conservative_values = null ∷ [];
  origin_note =
      "Read by the lucy hub, which uses it as the owner of a new repository, and as the owner to search under, when the request names none.";
}

abbrev default_visibility : SettingDef
default_visibility =
    record (entry namespace "default_visibility" SettingType.enum (str "private") use_default
      existing) {
        summary = "Whether a new repository is private, public or internal unless asked.";
        description =
            "`private` by default and on any outage, because a repository made public by mistake has been published, and making it private again does not unpublish it. `internal` exists only for organisations on GitHub Enterprise; GitHub refuses it anywhere else, and the refusal reaches the person as such.";
        scope = profile;
        choices = "private" ∷ "public" ∷ "internal" ∷ [];
        conservative_values = str "private" ∷ [];
        origin_note =
            "Read by the lucy hub, which uses it as the visibility of a new repository when the request does not say.";
      }

abbrev merge_method : SettingDef
merge_method =
    record (entry namespace "merge_method" SettingType.enum (str "squash") refuse existing) {
      summary = "How Lucy merges a pull request when you did not say: merge, squash or rebase.";
      description =
          "`squash`, the default, is what Lucy always did. `merge` keeps every commit and adds a merge commit; `rebase` replays the commits onto the base branch without one. A request that names a method always wins, and GitHub still refuses a method the repository does not allow.\n\nThis refuses rather than falls back. A merge is shared history and cannot be cleanly undone, so when this cannot be read Lucy does not guess squash on a repository whose owner merges or rebases: it asks which.";
      scope = profile;
      choices = "merge" ∷ "squash" ∷ "rebase" ∷ [];
      agent_writable = with_approval;
      origin_note =
          "Read by the lucy hub as the method of `repos.merge` when the request names none (before, a hard-coded squash). If it cannot be read, a merge that names no method is refused and the model is told to ask.";
    }

abbrev draft_pull_requests : SettingDef
draft_pull_requests =
    record (entry namespace "draft_pull_requests" SettingType.bool (bool false) use_default
      existing) {
        summary = "Whether pull requests Lucy opens start as drafts unless you say otherwise.";
        description =
            "Off by default: a pull request opens ready for review, as it always did, and reviewers are notified. On opens it as a draft, so nobody is asked to review until you mark it ready. A request that says draft or ready always wins.\n\nBoth are safe to land on: opening a pull request is already something you approve, and its draft state can be changed afterwards.";
        scope = profile;
        agent_writable = with_approval;
        conservative_values = bool false ∷ bool true ∷ [];
        origin_note =
            "Read by the lucy hub as `draft` on `repos.openPull` when the request does not say (before, not sent, so GitHub's default of ready applied).";
      }

abbrev delete_branch_after_merge : SettingDef
delete_branch_after_merge =
    record (entry namespace "delete_branch_after_merge" SettingType.bool (bool false) use_default
      existing) {
        summary = "Whether Lucy deletes a pull request's branch after merging it, unless you say.";
        description =
            "Off by default: the branch is kept after a merge, as it always was. On deletes the head branch once the pull request has merged, so merged branches stop piling up; GitHub can restore it from the pull request page. A request that says keep or delete always wins.\n\nAn outage falls back to off, because keeping a branch is the side that needs no undoing.";
        scope = profile;
        agent_writable = with_approval;
        conservative_values = bool false ∷ [];
        origin_note =
            "Read by the lucy hub as `delete_branch` on `repos.merge` when the request does not say (before, always kept). When this setting is what deleted a branch, the merge step says so.";
      }

abbrev watch_default_hours : SettingDef
watch_default_hours =
    record (entry namespace "watch_default_hours" SettingType.int (int (pos 1)) use_default
      existing) {
        summary = "How many hours Lucy keeps watching a repository when you did not say.";
        description =
            "One hour by default, which is what Lucy always did. Reviews and slow CI often take longer, so a longer default keeps 'tell me when it is green' from lapsing. A week at most, and a request that names how long always wins.\n\nA watch that wakes the conversation holds standing consent for its lifetime plus fifteen minutes, so a longer watch is a longer consent, revocable at any time. An outage falls back to an hour: a shorter watch expires, reports, and does nothing extra.";
        scope = profile;
        minimum = some (pos 1);
        maximum = some (pos 168);
        operator_clampable = true;
        agent_writable = with_approval;
        conservative_values = int (pos 1) ∷ [];
        origin_note =
            "Read by the lucy hub as the lifetime of `repos.watch` when the request names no `for_seconds` (before, an hour). The hub holds it between 1 and 168.";
      }

abbrev pub settings : List SettingDef
settings =
    default_owner ∷ default_visibility ∷ merge_method ∷ draft_pull_requests
    ∷ delete_branch_after_merge ∷ watch_default_hours ∷ []
