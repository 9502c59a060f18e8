-- ===== src/Cache/ReadExamples.antt =====
-- Projects that are read: files with their suffixes, bad layers, and a database.
use Prim.Native.String.{◌++◌ as ◌^◌}
use py_qgis_server.Prelude.{
  String, true, false, none, some, [], ◌∷◌, ◌≡◌, refl, string_eq, ◌==◌, if◌then◌else◌, ok, raise,
}
use py_qgis_server.Cache.Handlers.{Files, Options, Qgis, check_file, read_project}
use py_qgis_server.Cache.Postgres.{Parts, check_unsafe_url, row, select_text}
use py_qgis_server.Cache.Urls.{strict_checking}
use py_qgis_server.Dict.{Dict}

-- "/p/a.v1" and "/p/a" have the file "/p/a.qgs".
abbrev files : Files
files = record {
  is_absolute = λ p. true;
  suffix = λ p. if p == "/p/a.qgs" then ".qgs" else "";
  with_suffix = λ p sfx. "/p/a" ^ sfx;
  is_file = λ p. p == "/p/a.qgs";
  modified = λ p. 5;
}

check_file_suffix : check_file files "/p/a.v1" ≡ ok (some "/p/a.qgs")
unfolding check_file
check_file_suffix = refl

abbrev qgis : Qgis String
qgis = record {
  read = λ uri flags. (some uri, (some (some "bad") ∷ (none ∷ [])) ∷ []);
  restricted_layers = λ p. if p == "/a" then "bad" ∷ [] else [];
  write_entry = λ p e. p ^ e;
}

abbrev options : Options
options = record {
  trust_layer_metadata = false;
  disable_getprint = false;
  read_only_layers = false;
  strict_check = true;
  disable_owsurls = false;
}

-- A bad layer is accepted only if the project hides it.
read_project_restricted : read_project qgis options "/a" ≡ ok "/a"
unfolding read_project
read_project_restricted = refl

read_project_strict : read_project qgis options "/b" ≡ raise strict_checking
unfolding read_project
read_project_strict = refl

abbrev parts : Dict String String → Parts
parts params = record {
  text = "";
  params = params;
  stripped_path = "p";
  netloc = "me:secret@db";
  hostname = some "db";
  port = none;
  username = some "me";
  password = some "secret";
}

check_unsafe_url_secure :
    check_unsafe_url (λ c q. row 3) false (parts (("sslmode", "x") ∷ (("service", "s") ∷ [])))
    ≡ ok ("postgresql://me@/?service=s&project=p&schema=public", 3)
unfolding check_unsafe_url
check_unsafe_url_secure = refl

-- The name of the project is put in the query as it is.
select_text_quote :
    select_text "public" "a' or '1'='1"
    ≡ "select metadata from public.qgis_projects where name='a' or '1'='1'"
unfolding select_text
select_text_quote = refl
