-- ===== src/Cache/Samples.antt =====
-- A small configuration: the scheme `file` has the base `/projects/`.
use Prim.Native.String.{◌++◌ as ◌^◌}
use text.Mathlib.Text.{starts_with}
use py_qgis_server.Prelude.{
  String, false, none, [], ◌∷◌, string_eq, ◌==◌, if◌then◌else◌, refl, arith, ok,
}
use py_qgis_server.Cache.{Details, Services, Manager}
use py_qgis_server.Cache.Urls.{Config, Url}
use py_qgis_server.Dict
use py_qgis_server.Lru.{IsValid}

abbrev pub parsed : String → Url
parsed s = record { scheme = "file"; netloc = ""; path = s; params = ""; query = ""; fragment = "" }

abbrev pub config : Config
config = record {
  default_scheme = "file";
  is_allowed = λ s. s == "file";
  user_scheme = λ s. none;
  urlparse = parsed;
  geturl = λ u. u.path;
  urljoin = λ base s. if starts_with s "/" then s else base ^ s;
  parse_qs = λ s. [];
  has_path = λ s. false;
  format = λ base path. path;
  is_relative_to = λ path base. starts_with path base;
}

-- Every project was written at the same time.
abbrev pub services : Services String
services = record {
  protocol_handler = λ s. none;
  storage_handler = record {
    get_project = λ url old. ok (record { project = url.path; timestamp = 1700000000 });
    get_modified_time = λ url. ok 1700000000;
  };
}

abbrev pub demo : Details String
demo = record { project = "old"; timestamp = 1600000000 }

abbrev pub manager : Manager String
manager = record {
  lru = record { table = ("a", demo) ∷ []; capacity = 2 };
  static = ("s", demo) ∷ [];
  aliases = ("file", "/projects/") ∷ [];
  observers = "ban" ∷ [];
  calls = [];
}

pub manager-IsValid : IsValid manager.lru
unfolding Dict.get
manager-IsValid = record { positive = omega arith; bounded = omega arith; distinct = (refl, tt) }
