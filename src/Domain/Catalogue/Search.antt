-- ===== src/Domain/Catalogue/Search.antt =====
-- domain/catalogue/search.py: the entries of the `search` namespace, with their prose.
use settings_api.Prelude.{String, List, [], ◌∷◌, some, true, false}
use settings_api.Prelude.Int.{pos}
use settings_api.Domain.Value.{null, bool, int, str, str_list}
use settings_api.Domain.Types.{
  SettingDef, SettingType, account, existing, freely, profile, proposed, refuse, use_default,
  with_approval,
}
use settings_api.Domain.Catalogue.Entry.{entry}

abbrev pub namespace : String
namespace = "search"

abbrev default_model : SettingDef
default_model = record (entry namespace "default_model" SettingType.str null use_default existing) {
  summary = "Which model answers when a request does not name one, as `provider:model`.";
  description =
      "Namespaced, because web-search-api reaches around sixty providers and a bare model name is ambiguous across them. The pattern enforces the shape and nothing more: whether the deployment actually has that provider is something only web-search-api knows, and it says so at the moment of use rather than here.\n\nNull means 'whatever this deployment's default model is', which is the conservative value for an unusual reason: a null names no provider, so it cannot name one this person would not have chosen. An outage lands on the deployment's own default rather than on a stale preference.";
  scope = profile;
  nullable = true;
  max_chars = some (pos 128);
  pattern = some "^[a-z0-9][a-z0-9_-]*:[A-Za-z0-9][A-Za-z0-9._:-]*$";
  conservative_values = null ∷ [];
  origin_note = "web-search-api's `WSA_DEFAULT_MODEL`, a namespaced `provider:model` identifier.";
}

abbrev search_backend : SettingDef
search_backend =
    record (entry namespace "search_backend" SettingType.enum (str "google") use_default existing) {
      summary = "Which search backend to try first: Google, or a self-hosted SearXNG.";
      description =
          "A preference, not a restriction, and the difference matters. web-search-api tries the named backend first and fails over through the others, so choosing `searxng` means 'prefer the self-hosted one' rather than 'never scrape Google'.\n\nIf somebody wants the stronger statement, it is not expressible today in the owning service, and it should not be faked here: a setting that reads as a guarantee and behaves as a hint is worse than no setting. Falling back to `google` restores the shipped order, which is why this is safe to land on -- it cannot send a query anywhere the failover would not already have sent it.";
      scope = profile;
      choices = "google" ∷ "searxng" ∷ [];
      conservative_values = str "google" ∷ [];
      origin_note =
          "web-search-api's `WSA_SEARCH_BACKEND`, default 'google'. A third backend, serper, exists in that codebase but is unreachable, so it is not offered here.";
    }

abbrev disabled_providers : SettingDef
disabled_providers =
    record (entry namespace "disabled_providers" SettingType.str_list (str_list []) refuse
      existing) {
        summary = "Model providers this person's queries must never be sent to.";
        description =
            "Provider keys, one per entry. An empty list means every provider the deployment has is allowed, which is what web-search-api does today.\n\n**This refuses rather than falling back, and it is the reason that field has no default.** The permissive value has to be the default for the service to work at all, so falling back to it during an outage would override the one thing this setting is for. 'Never send my queries to provider X' is meaningless if a brief outage turns X back on -- and nobody would find out, because the query would succeed.\n\nNote the change web-search-api needs: it builds its provider list once at startup from a process-wide list, so per-person filtering has to happen when a caller's provider catalogue is assembled rather than when the process starts.";
        max_items = some (pos 60);
        max_item_chars = some (pos 64);
        origin_note = "web-search-api's `WSA_DISABLED_PROVIDERS`, honoured at provider build.";
      }

abbrev max_content_chars : SettingDef
max_content_chars =
    record (entry namespace "max_content_chars" SettingType.int (int (pos 40000)) use_default
      existing) {
        summary = "How much scraped page text may be handed to a model in one request.";
        description =
            "A ceiling on cost and on latency as much as on context: the effective limit for any one request is the smaller of this and what the chosen model can hold. Raising it buys more of a long article at the price of a larger prompt.\n\nThe default is web-search-api's own, so falling back to it reproduces today's behaviour exactly. A person who lowered it to save money gets a more expensive request during an outage, which is a bill rather than a broken promise.";
        minimum = some (pos 1000);
        maximum = some (pos 200000);
        operator_clampable = true;
        conservative_values = int (pos 40000) ∷ [];
        origin_note = "web-search-api's `WSA_MAX_CONTENT_CHARS`, default 40000.";
      }

abbrev safe_search : SettingDef
safe_search =
    record (entry namespace "safe_search" SettingType.enum (str "moderate") use_default existing) {
      summary = "How aggressively to filter explicit results out of searches.";
      description =
          "Three states rather than the on/off the owning service has, because the middle one is what most people mean: filter the obvious, do not filter a medical question into uselessness.\n\nBoth `moderate` and `strict` are conservative, and `off` is not -- so a future change of default has to stay inside the filtering two. An outage cannot turn filtering off, which is the property worth having on a setting a household might share. For the same reason a request body can ask for more filtering than this and never for less.";
      scope = profile;
      choices = "off" ∷ "moderate" ∷ "strict" ∷ [];
      conservative_values = str "moderate" ∷ str "strict" ∷ [];
      origin_note =
          "web-search-api applies it to a search that does not say, and holds a request that does to at least this level. Google has one filter, so `moderate` and `strict` both turn it on; SearxNG is sent all three.";
    }

abbrev store_query_history : SettingDef
store_query_history =
    record (entry namespace "store_query_history" SettingType.bool (bool false) use_default
      proposed) {
        summary = "Whether this person's search queries may be kept after the answer is given.";
        description =
            "Off, a query exists for the length of the request and is gone. On, it is kept, and a search history is among the most revealing records a person can have: what somebody searched for and when says more about them than most of what they would willingly write down.\n\n**Owner-writable only.** A service holding this person's token may write within its own namespace, and this is one of the two exceptions, because the service that would benefit from switching it on is the service that would be doing the keeping. Turning it on has to be the person's own act, with a token they minted for settings itself.\n\nOff is conservative and is what an outage lands on: nothing is kept.";
        owner_writable_only = true;
        conservative_values = bool false ∷ [];
        origin_note =
            "New here, and there is nothing to configure yet: web-search-api persists no queries, results or summaries anywhere, and has no database at all.";
      }

abbrev default_result_count : SettingDef
default_result_count =
    record (entry namespace "default_result_count" SettingType.int (int (pos 8)) use_default
      existing) {
        summary = "How many results a search returns when the request does not ask for a number.";
        description =
            "More results are more of the web in the prompt and a larger bill. Fewer are more round trips. Twenty is the owning service's own ceiling, expressed here so a person may lower it and never raise it past what the service will serve.\n\nEight is a typical default and the fallback, so an outage neither floods the prompt nor starves a lookup that expected a handful of hits.";
        scope = profile;
        minimum = some (pos 1);
        maximum = some (pos 20);
        operator_clampable = true;
        conservative_values = int (pos 8) ∷ [];
        origin_note =
            "Read by the lucy hub, which passes it, held to 1-20, as the result count when a research call names none. web-search-api takes a count per request and does not read it.";
      }

abbrev recency_days : SettingDef
recency_days = record (entry namespace "recency_days" SettingType.int null use_default existing) {
  summary = "How recent a result must be, in days, when the request does not say.";
  description =
      "Null means no recency filter, which is what the service does today and is therefore the conservative fallback: an outage does not hide a year-old page somebody needed. A number of 1 means 'today', 7 a week, 365 a year.\n\nThis is a search preference, not a prompt line. Which backend is in force in the live block is Lucy's `feeds_research_backend`.";
  scope = profile;
  nullable = true;
  minimum = some (pos 1);
  maximum = some (pos 365);
  operator_clampable = true;
  conservative_values = null ∷ [];
  origin_note =
      "web-search-api applies it to a search that names no recency of its own: a day count to Google, and to SearxNG the smallest of day, week, month or year that covers it.";
}

abbrev language : SettingDef
language = record (entry namespace "language" SettingType.str (str "en") use_default existing) {
  summary = "The language search results come back in, when a search does not say.";
  description =
      "A language code such as `fr` or `pt-br`. A search that names a language uses that one instead. English is what an outage lands on, and what the service always used.";
  scope = profile;
  max_chars = some (pos 8);
  pattern = some "^[a-z]{2,3}(?:-[a-z0-9]{2,4})?$";
  agent_writable = freely;
  conservative_values = str "en" ∷ [];
  origin_note =
      "Read by web-search-api as the language a query is run in when the request names none (before, always `en`).";
}

abbrev region : SettingDef
region = record (entry namespace "region" SettingType.str (str "us") use_default existing) {
  summary = "The country search results are ranked for, when a search does not say.";
  description =
      "A two-letter country code such as `gb` or `ng`, so a search like 'plumber near me' finds local results. A search that names a region uses that one instead.";
  scope = profile;
  max_chars = some (pos 8);
  pattern = some "^[a-z]{2}$";
  agent_writable = freely;
  conservative_values = str "us" ∷ [];
  origin_note =
      "Read by web-search-api as the country a query is ranked for when the request names none (before, always `us`).";
}

abbrev blocked_domains : SettingDef
blocked_domains =
    record (entry namespace "blocked_domains" SettingType.str_list (str_list []) use_default
      existing) {
        summary = "Sites whose search results you never see.";
        description =
            "Results from these sites, and from their subdomains, are removed from every search before anything is read or summarised. A search you limit to one of these sites still searches it, because you asked for that site.\n\nAn assistant may add one only with your approval: a domain added quietly is a source quietly hidden from your research. An outage falls back to none blocked.";
        scope = account;
        max_items = some (pos 100);
        max_item_chars = some (pos 253);
        agent_writable = with_approval;
        conservative_values = str_list [] ∷ [];
        origin_note =
            "Read by web-search-api, which drops results whose host is one of these or a subdomain of one before any page is read or summarised. A query restricted to one of these sites, and a page named to be read directly, are not blocked.";
      }

abbrev read_top_pages : SettingDef
read_top_pages =
    record (entry namespace "read_top_pages" SettingType.int (int (pos 0)) use_default existing) {
      summary = "How many top result pages each search summary is written from.";
      description =
          "Zero, the default, writes a summary from titles and snippets alone, which is fast. Higher reads the top pages themselves first: slower, and a summary written from what the pages say rather than what their snippets suggest.";
      scope = profile;
      minimum = some (pos 0);
      maximum = some (pos 10);
      operator_clampable = true;
      agent_writable = freely;
      conservative_values = int (pos 0) ∷ [];
      origin_note =
          "Read by web-search-api when a summarised search does not say whether to read pages, or asks for pages without a count. An explicit request wins, and a search that is not summarised reads no page it did not ask for.";
    }

abbrev summary_length : SettingDef
summary_length =
    record (entry namespace "summary_length" SettingType.enum (str "standard") use_default
      existing) {
        summary = "How long research summaries are.";
        description =
            "`brief` is one or two sentences and at most three key points. `standard` is two to five sentences. `detailed` is five to ten sentences and at most ten key points.";
        scope = profile;
        choices = "brief" ∷ "standard" ∷ "detailed" ∷ [];
        agent_writable = freely;
        conservative_values = str "standard" ∷ str "brief" ∷ str "detailed" ∷ [];
        origin_note =
            "Read by web-search-api for search, scrape and summarize alike. `standard` is the summary prompt as it always was; the other two change its length rule only.";
      }

abbrev research_notes : SettingDef
research_notes =
    record (entry namespace "research_notes" SettingType.str (str "") use_default existing) {
      summary = "Standing guidance every research summary follows.";
      description =
          "Such as 'prefer primary sources and flag sponsored content'. It steers what a summary pays attention to, never what counts as fact, and it follows any notes a single search gives.\n\nOnly you can change it. It is text a model reads on every summary, so an assistant that could write it could leave instructions for every search after.";
      scope = profile;
      max_chars = some (pos 2000);
      conservative_values = str "" ∷ [];
      origin_note =
          "Read by web-search-api and added after a request's own notes in the summary prompt, framed as what to focus on rather than as a source of facts, within the service's 4,000-character notes limit.";
    }

abbrev pub settings : List SettingDef
settings =
    default_model ∷ search_backend ∷ disabled_providers ∷ max_content_chars ∷ safe_search
    ∷ store_query_history ∷ default_result_count ∷ recency_days ∷ language ∷ region
    ∷ blocked_domains ∷ read_top_pages ∷ summary_length ∷ research_notes ∷ []
