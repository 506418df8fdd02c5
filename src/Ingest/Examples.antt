-- ===== src/Ingest/Examples.antt =====
-- A small outside of Store.Ingest of internal/sentryx/app.go for runs on concrete envelopes.
use crocuta.Prelude.{false, [], ◌∷◌, ◌++◌, none, some, Bytes, codes, lookup}
use crocuta.Envelope.Examples.{small_json, small_write, zeros}
use crocuta.Pii.{outside, default_pii_config}
use crocuta.Pii.Scrub.{text, end, member}
use crocuta.Events.Parts.{no_exception}
use crocuta.Ingest.{Outside, Settings, new_server}
use crocuta.Ingest.Issues.{IsGrouped}

-- No pattern matches, paths and texts stay as they are, and each payload is an object with a message.
abbrev pub small_outside : Outside
small_outside = record {
  json = small_json;
  rx = record {
    Regexp = Bytes;
    compile = λ s. some s;
    must_compile = λ s. s;
    match_string = λ r s. false;
    replace_all_string = λ r s template. s;
    pieces = λ r s. outside s ∷ [];
  };
  paths = record {
    url_path = λ s. none;
    clean = λ s. s;
    base = λ s. s;
    join_path = λ parts. codes "key";
    path_escape = λ s. s;
  };
  wire = λ body. none;
  blobs = record {
    Contents = Bytes;
    put = λ key body contents. some body;
    get = λ key contents. some contents;
  };
  event_json = record {
    codec = record {
      unmarshal = λ s. some (text s);
      marshal = λ v. some (codes "1");
      sprint = λ v. [];
    };
    unmarshal_map = λ payload. some (member (codes "message") (text payload) end);
    exception_value = λ encoded. no_exception;
    frames_value = λ encoded. none;
    parse_time = λ s. none;
  };
  sha = zeros;
  read_exception = λ encoded. some no_exception;
  read_report = λ payload. none;
  is_json = λ payload. false;
  random_id = λ n. n ∷ [];
}

abbrev pub settings : Settings
settings = record { pii = default_pii_config; grouping_version = codes "v2" }

abbrev pub envelope : Bytes
envelope = codes "{}\n" ++ (small_write (codes "event", 1) ++ codes "\n1\n")

pub new_server-IsGrouped : IsGrouped (new_server small_outside).tables
unfolding lookup
new_server-IsGrouped = λ k id e. cc
