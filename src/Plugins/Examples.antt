-- ===== src/Plugins/Examples.antt =====
-- Versions, and a folder of plugins of which one gives a version that is not a number.
use py_qgis_server.Prelude.{
  String, true, none, some, [], ◌∷◌, ◌≡◌, refl, string_eq, ◌==◌, if◌then◌else◌, Result, ok, raise,
}
use py_qgis_server.Plugins.{
  Entry, Registry, check_qgis_version, load_plugins, plugin_list, value_error,
}
use py_qgis_server.Plugins.Versions.{check_qgis_version-lex_le}
use py_qgis_server.Text.{Text}

-- "3.22.1-x", "3.10", "3.99", "3.x" and "4"
abbrev current : Text
current = 51 ∷ 46 ∷ 50 ∷ 50 ∷ 46 ∷ 49 ∷ 45 ∷ 120 ∷ []

abbrev minimum : Text
minimum = 51 ∷ 46 ∷ 49 ∷ 48 ∷ []

abbrev maximum : Text
maximum = 51 ∷ 46 ∷ 57 ∷ 57 ∷ []

abbrev broken : Text
broken = 51 ∷ 46 ∷ 120 ∷ []

abbrev next_major : Text
next_major = 52 ∷ []

check_qgis_version-lex_le_example :
    check_qgis_version current (some minimum) (some maximum) ≡ ok true
unfolding check_qgis_version
check_qgis_version-lex_le_example =
    check_qgis_version-lex_le current (some minimum) (some maximum) (3, 22, 1) (3, 10, 0) (3, 99, 0)
      refl refl refl

-- QGIS 4 is within a maximal version 3.99.
check_qgis_version_next : check_qgis_version next_major none (some maximum) ≡ ok true
unfolding check_qgis_version
check_qgis_version_next = refl

abbrev entry : String → Text → Entry
entry name minimum_version = record {
  name = name;
  is_dir = true;
  has_metadata = true;
  has_entry_point = true;
  settings = ok (record {
    server = some true;
    minimum_version = some minimum_version;
    maximum_version = none;
  });
}

abbrev load : String → Result String String
load name = if name == "b" then raise "trace" else ok name

abbrev registry : Registry String
registry = record { server_plugins = []; failed_plugins = []; search_path = [] }

-- The plugin after the one with the broken version is not loaded.
load_plugins_stops :
    (load_plugins current
      (some "/p")
      (entry "a" minimum ∷ (entry "c" broken ∷ (entry "d" minimum ∷ [])))
      load
      registry).0
    ≡ some value_error
unfolding load_plugins
load_plugins_stops = refl

load_plugins_loaded :
    plugin_list
      (load_plugins current
        (some "/p")
        (entry "a" minimum ∷ (entry "c" broken ∷ (entry "d" minimum ∷ [])))
        load
        registry).1
    ≡ "a" ∷ []
unfolding load_plugins plugin_list
load_plugins_loaded = refl

load_plugins_failed :
    (load_plugins current
      (some "/p")
      (entry "a" minimum ∷ (entry "b" minimum ∷ []))
      load
      registry).1.failed_plugins
    ≡ ("b", "trace") ∷ []
unfolding load_plugins
load_plugins_failed = refl
