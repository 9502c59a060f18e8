-- ===== src/Settings/Defaults.antt =====
-- The sections and options that `load_configuration` (src/pyqgisserver/config.py) sets, in its order.
use py_qgis_server.Prelude.{String, List, [], ◌∷◌, ◌++◌}

-- Where a value comes from: a text, `getenv`, or `getenv2`.
pub data Source : Type 0 where
  constant : String → Source
  variable : String → String → Source
  alternate : String → String → String → Source

-- `CONFIG.add_section` and `CONFIG.set`
pub data Command : Type 0 where
  section : String → Command
  option : String → String → Source → Command

abbrev server_settings : List Command
server_settings =
    section "server"
    ∷ option "server" "port" (variable "QGSRV_SERVER_HTTP_PORT" "8080")
    ∷ option "server" "interfaces" (variable "QGSRV_SERVER_INTERFACES" "0.0.0.0")
    ∷ option "server" "workers" (variable "QGSRV_SERVER_WORKERS" "2")
    ∷ option "server" "timeout" (variable "QGSRV_SERVER_TIMEOUT" "20")
    ∷ option "server" "enable_filters" (variable "QGSRV_SERVER_ENABLE_FILTERS" "no")
    ∷ option "server" "http_proxy" (variable "QGSRV_SERVER_HTTP_PROXY" "no")
    ∷ option "server" "proxy_url" (variable "QGSRV_SERVER_PROXY_URL" "")
    ∷ option "server" "restartmon" (variable "QGSRV_SERVER_RESTARTMON" "")
    ∷ option "server" "ssl" (variable "QGSRV_SERVER_SSL" "no")
    ∷ option "server" "ssl_cert" (variable "QGSRV_SERVER_SSL_CERT" "")
    ∷ option "server" "ssl_key" (variable "QGSRV_SERVER_SSL_KEY" "")
    ∷ option "server" "cross_origin" (variable "QGSRV_SERVER_CROSS_ORIGIN" "yes")
    ∷ option "server" "status_page" (variable "QGSRV_SERVER_STATUS_PAGE" "no")
    ∷ option "server" "allow_headers" (variable "QGSRV_SERVER_ALLOW_HEADERS" "X-Qgis-,X-Lizmap-")
    ∷ option "server" "memory_high_water_mark"
        (variable "QGSRV_SERVER_MEMORY_HIGH_WATER_MARK" "0.9")
    ∷ option "server" "getfeaturelimit" (variable "QGSRV_SERVER_GETFEATURELIMIT" "-1")
    ∷ option "server" "pluginpath" (alternate "QGSRV_SERVER_PLUGINPATH" "QGIS_PLUGINPATH" "")
    ∷ option "server" "debug_request_id" (variable "QGSRV_SERVER_DEBUG_REQUEST_ID" "*")
    ∷ []

abbrev logging_settings : List Command
logging_settings =
    section "logging"
    ∷ option "logging" "level" (variable "QGSRV_LOGGING_LEVEL" "INFO")
    ∷ option "logging" "qgis_info" (variable "QGSRV_LOGGING_QGIS_INFO" "no")
    ∷ []

abbrev api_endpoints_settings : List Command
api_endpoints_settings =
    section "api.endpoints"
    ∷ option "api.endpoints" "landing_page" (variable "QGSRV_API_ENDPOINTS_LANDING_PAGE" "/catalog")
    ∷ option "api.endpoints" "lizmap_api" (variable "QGSRV_API_ENDPOINTS_LIZMAP" "/lizmap")
    ∷ []

abbrev api_enabled_settings : List Command
api_enabled_settings =
    section "api.enabled"
    ∷ option "api.enabled" "landing_page" (variable "QGSRV_API_ENABLED_LANDING_PAGE" "no")
    ∷ option "api.enabled" "lizmap_api" (variable "QGSRV_API_ENABLED_LIZMAP" "no")
    ∷ []

abbrev api_landing_page_settings : List Command
api_landing_page_settings =
    section "api:landing_page"
    ∷ option "api:landing_page" "QGIS_SERVER_LANDING_PAGE_PREFIX"
        (constant "${api.endpoints:landing_page}")
    ∷ option "api:landing_page" "QGIS_SERVER_LANDING_PAGE_PROJECTS_DIRECTORIES"
        (constant "${projects.cache:rootdir}")
    ∷ []

abbrev projects_cache_settings : List Command
projects_cache_settings =
    section "projects.cache"
    ∷ option "projects.cache" "size" (variable "QGSRV_CACHE_SIZE" "10")
    ∷ option "projects.cache" "rootdir" (variable "QGSRV_CACHE_ROOTDIR" "")
    ∷ option "projects.cache" "strict_check" (variable "QGSRV_CACHE_STRICT_CHECK" "yes")
    ∷ option "projects.cache" "insecure" (variable "QGSRV_CACHE_INSECURE" "no")
    ∷ option "projects.cache" "preload_config" (variable "QGSRV_CACHE_PRELOAD_CONFIG" "")
    ∷ option "projects.cache" "trust_layer_metadata"
        (alternate "QGSRV_TRUST_LAYER_METADATA" "QGIS_SERVER_TRUST_LAYER_METADATA" "no")
    ∷ option "projects.cache" "disable_getprint"
        (alternate "QGSRV_DISABLE_GETPRINT" "QGIS_SERVER_DISABLE_GETPRINT" "no")
    ∷ option "projects.cache" "disable_owsurls" (variable "QGSRV_CACHE_DISABLE_OWSURLS" "no")
    ∷ option "projects.cache" "force_etag" (variable "QGSRV_CACHE_FORCE_ETAG" "no")
    ∷ option "projects.cache" "default_handler" (variable "QGSRV_CACHE_DEFAULT_HANDLER" "file")
    ∷ option "projects.cache" "allow_storage_schemes"
        (variable "QGSRV_CACHE_ALLOW_STORAGE_SCHEMES" "*")
    ∷ option "projects.cache" "check_interval" (variable "QGSRV_CACHE_CHECK_INTERVAL" "0")
    ∷ option "projects.cache" "observers" (variable "QGSRV_CACHE_OBSERVERS" "")
    ∷ option "projects.cache" "advanced_report" (variable "QGSRV_CACHE_ADVANCED_REPORT" "no")
    ∷ option "projects.cache" "force_readonly_layers"
        (variable "QGIS_SERVER_FORCE_READONLY_LAYERS" "yes")
    ∷ []

abbrev projects_schemes_settings : List Command
projects_schemes_settings = section "projects.schemes" ∷ []

abbrev zmq_settings : List Command
zmq_settings =
    section "zmq"
    ∷ option "zmq" "identity" (variable "QGSRV_ZMQ_IDENTITY" "OWS-SERVER")
    ∷ option "zmq" "maxqueue" (variable "QGSRV_ZMQ_MAXQUEUE" "1000")
    ∷ option "zmq" "timeout" (variable "QGSRV_ZMQ_TIMEOUT" "15000")
    ∷ option "zmq" "hostaddr" (variable "QGSRV_ZMQ_HOSTADDR" "*")
    ∷ option "zmq" "bindaddr" (variable "QGSRV_ZMQ_INADDR" "tcp://${zmq:hostaddr}:18080")
    ∷ option "zmq" "broadcastaddr"
        (variable "QGSRV_ZMQ_BROADCASTADDR" "tcp://${zmq:hostaddr}:18090")
    ∷ option "zmq" "cache_observer_addr"
        (variable "QGSRV_ZMQ_CACHEOBSERVERADDR" "tcp://${zmq:hostaddr}:18091")
    ∷ []

abbrev monitor_amqp_settings : List Command
monitor_amqp_settings =
    section "monitor:amqp"
    ∷ option "monitor:amqp" "routing_key" (variable "AMQP_ROUTING" "")
    ∷ option "monitor:amqp" "host" (variable "AMQP_HOST" "amqp")
    ∷ option "monitor:amqp" "user" (variable "AMQP_USER" "")
    ∷ option "monitor:amqp" "vhost" (variable "AMQP_VHOST" "/")
    ∷ option "monitor:amqp" "port" (variable "AMQP_PORT" "5672")
    ∷ option "monitor:amqp" "exchange" (variable "AMQP_EXCHANGE" "qgis_log")
    ∷ option "monitor:amqp" "reconnect_delay" (variable "AMQP_RECONNECT_DELAY" "5")
    ∷ []

abbrev management_settings : List Command
management_settings =
    section "management"
    ∷ option "management" "enabled" (variable "QGSRV_MANAGEMENT_ENABLED" "no")
    ∷ option "management" "interfaces" (variable "QGSRV_MANAGEMENT_INTERFACES" "127.0.0.1")
    ∷ option "management" "ssl" (variable "QGSRV_MANAGEMENT_SSL" "no")
    ∷ option "management" "ss_key" (variable "QGSRV_MANAGEMENT_SSL_KEY" "")
    ∷ option "management" "ssl_cert" (variable "QGSRV_MANAGEMENT_SSL_CERT" "")
    ∷ option "management" "port" (variable "QGSRV_MANAGEMENT_PORT" "19876")
    ∷ []

abbrev metadata_settings : List Command
metadata_settings =
    section "metadata"
    ∷ option "metadata" "contact_name" (constant "3liz")
    ∷ option "metadata" "contact_address" (constant "")
    ∷ option "metadata" "contact_email" (constant "info@3liz.com")
    ∷ option "metadata" "contact_url" (constant "https://www.3liz.com/")
    ∷ option "metadata" "licence_url" (constant "http://mozilla.org/MPL/2.0/")
    ∷ option "metadata" "licence_name" (constant "Mozilla Public Licences, v2.0")
    ∷ option "metadata" "external_doc_description" (constant "Py-qgis-server documentation")
    ∷ option "metadata" "external_doc_url" (constant "https://docs.3liz.org/py-qgis-server/")
    ∷ []

-- All of them.
abbrev pub commands : List Command
commands =
    server_settings ++ logging_settings ++ api_endpoints_settings ++ api_enabled_settings
    ++ api_landing_page_settings ++ projects_cache_settings ++ projects_schemes_settings
    ++ zmq_settings ++ monitor_amqp_settings ++ management_settings ++ metadata_settings
