-- ===== src/App/Tests.antt =====
-- The intake of envelopes of internal/sentryx/app.go on concrete requests.
use crocuta.Prelude.{
  ◌≡◌, refl, true, List, [], ◌∷◌, none, some, codes, equal, arith, lookup, insert, trim_space,
  trim_left, trim_right, is_space, split, cut, has_prefix, trim_prefix,
}
use crocuta.Prelude.Int.{pos}
use crocuta.Envelope.Examples.{small_write}
use crocuta.Pii.{default_pii_config}
use crocuta.RateLimiter.{RateLimiter, minute}
use crocuta.Ingest.{new_server}
use crocuta.Ingest.Examples.{small_outside, settings, envelope, new_server-IsGrouped}
use crocuta.Relay.{HttpRequest}
use crocuta.App.{AppOutside, App, answered, to_envelope, to_store, handle, key_of}
use crocuta.App.Tokens.{
  parse_project_keys, add_project_keys, parse_sentry_auth, find_auth, trim_left_quotes,
  trim_right_quotes, has_member, valid_key, parse_api_tokens, add_api_tokens, valid_artifact_token,
}
use crocuta.App.Admitted.{AdmittedOrKept, handle-Admitted}
use crocuta.App.Soundness.{Call, IsSound, handle_all, handle_all-IsSound}

abbrev small : AppOutside
small = record {
  inner = small_outside;
  urls = record { query_escape = λ s. s; path_escape = λ s. s };
  query_value = λ uri name. uri;
  split_host_port = λ addr. none;
  gunzip = λ s. none;
  store_header = codes "{}";
  event_header = λ n. small_write (codes "event", n);
}

abbrev limiter : RateLimiter
limiter = record {
  limit = pos 1;
  window = minute;
  max_entries = 10;
  last_cleanup = 5;
  entries = [];
}

abbrev app : App small
app = record {
  server = new_server small_outside;
  settings = settings;
  control = none;
  pii = default_pii_config;
  max_envelope = pos 0;
  relay_token = [];
  project_keys = (codes "1", codes "k" ∷ []) ∷ [];
  rate_limiter = some limiter;
}

abbrev posted : HttpRequest
posted = record {
  method = codes "POST";
  path = codes "/api/1/envelope/";
  uri = codes "k";
  headers = [];
  body = envelope;
}

handle-Admitted_example :
    AdmittedOrKept small app posted
      (codes "a")
      (codes "1")
      to_envelope
      7
      (handle small app posted (codes "a") (codes "1") to_envelope 7)
handle-Admitted_example = handle-Admitted small app posted (codes "a") (codes "1") to_envelope 7

abbrev calls : List (Call small)
calls =
    record {
      request = posted;
      remote_addr = codes "a";
      project_id = codes "1";
      kind = to_envelope;
      at = 7;
    }
    ∷ record {
      request = posted;
      remote_addr = codes "a";
      project_id = codes "1";
      kind = to_store;
      at = 8;
    }
    ∷ []

handle_all-IsSound_example :
    (b : App small) × (handle_all small app calls ≡ some b) × IsSound small b
handle_all-IsSound_example =
    handle_all-IsSound small app calls
      (new_server-IsGrouped, record { room = omega arith; fits = omega arith; counted = tt }, tt)

-- A key that is not the project's is refused.
handle_foreign :
    handle small app (record posted { uri = codes "j" }) (codes "a") (codes "1") to_envelope 7
    ≡ (answered 401, app)
unfolding handle key_of valid_key has_member lookup equal
handle_foreign = refl

parse_project_keys_runs :
    parse_project_keys (codes "1:a, 1:b,2:c,x")
    ≡ (codes "1", codes "b" ∷ codes "a" ∷ []) ∷ (codes "2", codes "c" ∷ []) ∷ []
unfolding parse_project_keys add_project_keys has_member split cut trim_space trim_left trim_right
    is_space lookup insert equal
parse_project_keys_runs = refl

parse_sentry_auth_runs :
    parse_sentry_auth (codes "Sentry sentry_version=7, sentry_key=\"k\"") (codes "sentry_key")
    ≡ codes "k"
unfolding parse_sentry_auth find_auth trim_left_quotes trim_right_quotes split cut trim_space
    trim_left trim_right is_space equal
parse_sentry_auth_runs = refl

parse_api_tokens_runs : parse_api_tokens (codes "t:1 ,:2,u") ≡ (codes "t", codes "1") ∷ []
unfolding parse_api_tokens add_api_tokens split cut trim_space trim_left trim_right is_space insert
    equal
parse_api_tokens_runs = refl

bearer_passes :
    valid_artifact_token
      (codes "t")
      (record posted { headers = (codes "Authorization", codes "Bearer t" ∷ []) ∷ [] })
    ≡ true
unfolding valid_artifact_token has_prefix trim_prefix trim_space trim_left trim_right is_space
    lookup equal
bearer_passes = refl
