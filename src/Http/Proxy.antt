-- ===== src/Http/Proxy.antt =====
-- The URL by which a request came, behind a proxy or not (`proxy_url` of
-- src/pyqgisserver/handlers/basehandler.py).
use py_qgis_server.Prelude.{Bool, false, List, [], ◌∷◌, ◌++◌, nat_eq, ◌==◌, if◌then◌else◌, ok}
use py_qgis_server.Http.Calls.{Handling, Request}
use py_qgis_server.Http.Services.{Context, get_text, is_given}
use py_qgis_server.Text.{Text, same, split}

-- host, proto and ://
abbrev pub host_key : Text
host_key = 104 ∷ 111 ∷ 115 ∷ 116 ∷ []

abbrev pub proto_key : Text
proto_key = 112 ∷ 114 ∷ 111 ∷ 116 ∷ 111 ∷ []

abbrev pub separator : Text
separator = 58 ∷ 47 ∷ 47 ∷ []

-- `proxy_url[-1] != '/'`
unfoldable pub ends_in_slash : Text → Bool
ends_in_slash [] = false
ends_in_slash (c ∷ []) = c == 47
ends_in_slash (c ∷ (d ∷ s)) = ends_in_slash (d ∷ s)

-- `a or b`
unfoldable pub or_else : Text → Text → Text
unfolding is_given
or_else s t = if is_given s then s else t

-- `k, v = p.split('=')`, which raises unless there are two parts
unfoldable pub forward_pair : List Text → Request → Request
unfolding same
forward_pair [] r = r
forward_pair (k ∷ []) r = r
forward_pair (k ∷ (v ∷ [])) r =
    if same k host_key
    then record r { host = v }
    else if same k proto_key
    then record r { protocol = v }
    else r
forward_pair (k ∷ (v ∷ (w ∷ rest))) r = r

-- the loop over the parts of the `Forwarded` header: 61 is `=`
unfoldable pub forward_parts : List Text → Request → Request
unfolding forward_pair split
forward_parts [] r = r
forward_parts (p ∷ ps) r = forward_parts ps (forward_pair (split 61 p) r)

-- The host and the protocol by the proxy's headers: 59 is `;`.
unfoldable pub forwarded_request : Request → Request
unfolding get_text is_given forward_parts split
forwarded_request r =
    let named = get_text "X-Forwarded-Host" r.headers in
    let hosted = if is_given named then record r { host = named } else r in
    let forwarded = get_text "Forwarded" r.headers in
    if is_given forwarded then forward_parts (split 59 forwarded) hosted else hosted

unfoldable pub full_url : Request → Text
full_url r = r.protocol ++ (separator ++ (r.host ++ (47 ∷ [])))

-- The URL that the configuration or a header gives.
unfoldable pub given_url : Context → Request → Text
unfolding or_else get_text
given_url c r =
    or_else c.proxy_setting
      (or_else (get_text "X-Forwarded-Url" r.headers) (get_text "X-Qgis-Forwarded-Url" r.headers))

-- `proxy_url`
unfoldable pub proxy_url : Context → Handling Text
unfolding given_url is_given ends_in_slash forwarded_request full_url
proxy_url c s =
    let given = given_url c s.request in
    let forwarded = forwarded_request s.request in
    if c.http_proxy
    then (if is_given given
        then (ok (if ends_in_slash given then given else given ++ (47 ∷ [])), s)
        else (ok (full_url forwarded), record s { request = forwarded }))
    else (ok (full_url s.request), s)
