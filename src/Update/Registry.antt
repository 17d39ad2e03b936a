-- ===== src/Update/Registry.antt =====
-- update/registry.go: looking an image up on its registry. HTTP, JSON, URLs and SHA-256 are the
-- record `Web`; an answer of the network may depend on all the requests before it. A text stands for
-- its bytes, and the deadlines of the context show as failed requests.
pub mod Handshake
pub mod Fetch
pub mod Content
use hadron_desktop.Base.{
  ℕ, zero, suc, ◌*◌, ◌^◌, Bool, true, false, not, ◌&&◌, ◌||◌, Option, none, some, List, [], ◌∷◌,
  ◌++◌, length, ltb, leb, ◌==◌, if◌then◌else◌,
}
use hadron_desktop.Base.Text.{
  Text, text, text_eq, has_prefix, cut, trim_right, is_empty, hex_encode, Dict, get,
}
use hadron_desktop.Base.Regex.{full_match, range}
use hadron_desktop.Update.Ref.{ImageRef, RefError, parse_ref, digest_re, reference}
use hadron_desktop.Update.Ref
use hadron_desktop.Update.Policy.{ImageInfo}

pub data Method : Type 0 where
  head_method get_method : Method

-- A request; the Authorization header is empty if it is not set.
pub record Request : Type 0 where
  pub method : Method
  pub url : Text
  pub authorization : Text

-- A response with the headers that are read, and its body, `none` if reading it fails.
pub record Response : Type 0 where
  pub status : ℕ
  pub challenge : Text
  pub content_digest : Text
  pub body : Option Text

-- What `json.Unmarshal` reads of a manifest or an index, and of an image config.
pub record Entry : Type 0 where
  pub digest : Text
  pub os : Text
  pub arch : Text

pub record Manifest : Type 0 where
  pub manifests : List Entry
  pub config : Text

pub record ImageConfig : Type 0 where
  pub os : Text
  pub arch : Text
  pub labels : Dict

pub record Web : Type 0 where
  pub registry_env : Text
  pub answer : List Request → Request → Option Response
  pub scheme_host : Text → Option (Text × Text)
  pub encode : List (Text × Text) → Text
  pub sha256 : Text → List ℕ
  pub token_of : Text → Option (Text × Text)
  pub manifest_of : Text → Option Manifest
  pub config_of : Text → Option ImageConfig

pub data RegError : Type 0 where
  bad_ref : RefError → RegError
  http_status : ℕ → RegError
  transport needs_credentials no_realm realm_refused bad_token does_not_exist read_failed
        too_large :
      RegError
  malformed_header header_mismatch unexpected_digest unreadable_manifest wrong_platform : RegError
  malformed_child no_config malformed_config unreadable_config : RegError

pub data Result {ℓ} (A : Type ℓ) : Type ℓ where
  ok : A → Result A
  err : RegError → Result A

-- `regClient`, with the requests it sent, newest first.
pub record Client : Type 0 where
  pub token : Text
  pub log : List Request

abbrev pub new_client : Client
new_client = record { token = []; log = [] }

abbrev pub M {ℓ} : Type ℓ → Type ℓ
M A = Client → Result A × Client

infixl 5 ◌>>=◌
abbrev pub ◌>>=◌ {ℓ κ} : {A : Type ℓ} {B : Type κ} → M A → (A → M B) → M B
◌>>=◌ m f c = let (r, c') = m c in elim r [ ok a ↦ f a c' | err e ↦ (err e, c') ]

abbrev pub return {ℓ} : {A : Type ℓ} → A → M A
return a c = (ok a, c)

abbrev pub fail {ℓ} : {A : Type ℓ} → RegError → M A
fail e c = (err e, c)

-- `strings.TrimRight(s, "/")`
abbrev pub trim_slashes : Text → Text
trim_slashes s = trim_right (λ c. c == b'/') s

-- `registryBase`
unfoldable pub registry_base : Web → Text → Text
unfolding is_empty trim_right text
registry_base w host =
    if not (is_empty w.registry_env) then trim_slashes w.registry_env else text "https://" ++ host

-- `bearerParam`, matched again behind each match: a word, an equals sign and a quoted value.
abbrev is_word : ℕ → Bool
is_word c = range b'0' b'9' c || range b'A' b'Z' c || range b'a' b'z' c || c == b'_'

span_word : Text → Text × Text
span_word [] = ([], [])
span_word (c ∷ s) =
    let (word, rest) = span_word s in if is_word c then (c ∷ word, rest) else ([], c ∷ s)

quoted : Text → Option (Text × Text)
unfolding cut
quoted (c ∷ d ∷ s) = if c == b'=' && d == b'"' then cut s b'"' else none
quoted s = none

-- The pairs, the last first, so that the last value of a key is read. The length of the challenge is
-- enough fuel: a round drops a character.
params_from : ℕ → Dict → Text → Dict
unfolding span_word quoted
params_from zero acc s = acc
params_from (suc n) acc [] = acc
params_from (suc n) acc (c ∷ s) =
    let (word, rest) = span_word (c ∷ s) in
    elim (quoted rest) [
      | none ↦ params_from n acc s
      | some (value, more) ↦
          if is_empty word then params_from n acc s else params_from n ((word, value) ∷ acc) more
    ]

unfoldable pub bearer_params : Text → Dict
unfolding params_from
bearer_params challenge = params_from (length challenge) [] challenge

-- `tokenRealmAllowed`
is_https : Option (Text × Text) → Bool
unfolding text_eq text is_empty
is_https none = false
is_https (some (scheme, host)) = text_eq scheme (text "https") && not (is_empty host)

unfoldable pub token_realm_allowed : Web → Text → Bool
unfolding is_https has_prefix trim_right is_empty
token_realm_allowed w realm =
    is_https (w.scheme_host realm)
    || (not (is_empty w.registry_env)
        && has_prefix realm (trim_slashes w.registry_env ++ (b'/' ∷ [])))

-- `send` of `do`: one call of the HTTP client under the client's token.
authorization_of : Text → Text
unfolding text is_empty
authorization_of token = if is_empty token then [] else text "Bearer " ++ token

received : Option Response → Result Response
received none = err transport
received (some r) = ok r

-- One call of the HTTP client, recorded; the redirects that it follows are part of its answer.
unfoldable pub ask : Web → Request → M Response
unfolding received
ask w q c = (received (w.answer c.log q), record c { log = q ∷ c.log })

unfoldable pub send : Web → Method → Text → M Response
unfolding ask authorization_of
send w method u c =
    ask w (record { method = method; url = u; authorization = authorization_of c.token }) c

-- `anonymousToken`
param : Text → Text → List (Text × Text)
unfolding is_empty
param k v = if is_empty v then [] else (k, v) ∷ []

query_of : Dict → List (Text × Text)
unfolding param text get
query_of params =
    param (text "service") (get params (text "service"))
    ++ param (text "scope") (get params (text "scope"))

token_or : Option (Text × Text) → Result Text
unfolding is_empty
token_or none = err bad_token
token_or (some (token, access)) = ok (if is_empty token then access else token)

decode_token : Web → Option Text → Result Text
unfolding token_or
decode_token w none = err bad_token
decode_token w (some body) = token_or (w.token_of body)

token_response : Web → Response → M Text
unfolding decode_token
token_response w r c = (if r.status == 200 then decode_token w r.body else err needs_credentials, c)

ask_realm : Web → Dict → Text → M Text
unfolding ask token_response query_of
ask_realm w params realm =
    ask w (record {
      method = get_method;
      url = realm ++ (b'?' ∷ w.encode (query_of params));
      authorization = [];
    })
    >>= token_response w

from_realm : Web → Dict → Text → M Text
unfolding token_realm_allowed ask_realm is_empty
from_realm w params realm =
    if is_empty realm
    then fail no_realm
    else if not (token_realm_allowed w realm)
    then fail realm_refused
    else ask_realm w params realm

unfoldable pub anonymous_token : Web → Text → M Text
unfolding from_realm bearer_params has_prefix text get
anonymous_token w challenge =
    if not (has_prefix challenge (text "Bearer "))
    then fail needs_credentials
    else from_realm w (bearer_params challenge) (get (bearer_params challenge) (text "realm"))

-- `do`: a 401 fetches a token and asks once more. The assignment sets the token also on an error.
keep_token : Result Text → Client → Client
keep_token (ok token) c = record c { token = token }
keep_token (err e) c = record c { token = [] }

store_token : Result Text × Client → Result Text × Client
unfolding keep_token
store_token (r, c) = (r, keep_token r c)

new_token : Web → Text → M Text
unfolding anonymous_token store_token
new_token w challenge c = store_token (anonymous_token w challenge c)

retry : Web → Method → Text → Text → M Response
unfolding new_token send
retry w method u challenge = new_token w challenge >>= λ _. send w method u

challenged : Web → Method → Text → Response → M Response
unfolding retry
challenged w method u r = if r.status == 401 then retry w method u r.challenge else return r

unfoldable pub do_request : Web → Method → Text → M Response
unfolding send challenged
do_request w method u = send w method u >>= challenged w method u

-- `fetch`, for the digest that is wanted, or [].
abbrev pub max_registry_body : ℕ
max_registry_body = 8 * 2 ^ 20

unfoldable pub digest_of : Web → Text → Text
unfolding text hex_encode
digest_of w body = text "sha256:" ++ hex_encode (w.sha256 body)

check_wanted : Text → Text → Text → Result (Text × Text)
unfolding is_empty text_eq
check_wanted body digest want =
    if not (is_empty want) && not (text_eq want digest)
    then err unexpected_digest
    else ok (body, digest)

check_header : Text → Text → Text → Text → Result (Text × Text)
unfolding check_wanted digest_re full_match
check_header body digest header want =
    if is_empty header
    then check_wanted body digest want
    else if not (full_match digest_re header)
    then err malformed_header
    else if not (text_eq header digest)
    then err header_mismatch
    else check_wanted body digest want

check_body : Web → Option Text → Text → Text → Result (Text × Text)
unfolding check_header digest_of
check_body w none header want = err read_failed
check_body w (some body) header want =
    if ltb max_registry_body (length body)
    then err too_large
    else check_header body (digest_of w body) header want

pub fetched : Web → Text → Response → Result (Text × Text)
unfolding check_body
fetched w want r =
    if r.status == 200
    then check_body w r.body r.content_digest want
    else if r.status == 404
    then err does_not_exist
    else if r.status == 401 || r.status == 403
    then err needs_credentials
    else err (http_status r.status)

checked : Web → Text → Response → M (Text × Text)
unfolding fetched
checked w want r c = (fetched w want r, c)

unfoldable pub fetch : Web → Text → Text → M (Text × Text)
unfolding do_request checked
fetch w u want = do_request w get_method u >>= checked w want

-- `Resolve`
abbrev repo_url : Web → ImageRef → Text
repo_url w ref = registry_base w ref.host ++ (text "/v2/" ++ ref.name)

unfoldable pub manifest_url : Web → ImageRef → Text → Text
unfolding registry_base text
manifest_url w ref r = repo_url w ref ++ (text "/manifests/" ++ r)

unfoldable pub blob_url : Web → ImageRef → Text → Text
unfolding registry_base text
blob_url w ref r = repo_url w ref ++ (text "/blobs/" ++ r)

unfoldable pub is_our_platform : Text → Text → Bool
unfolding text_eq text
is_our_platform os arch = text_eq os (text "linux") && text_eq arch (text "amd64")

pub child_of : List Entry → Text
unfolding is_our_platform
child_of [] = []
child_of (e ∷ es) = if is_our_platform e.os e.arch then e.digest else child_of es

decoded : Option Manifest → M Manifest
decoded none = fail unreadable_manifest
decoded (some m) = return m

-- The config's digest: of the manifest, or of the one that the index lists for the platform.
child_config : Web → Text × Text → M Text
unfolding decoded
child_config w p = decoded (w.manifest_of p.0) >>= λ m. return m.config

config_of_child : Web → ImageRef → Text → M Text
unfolding fetch manifest_url child_config full_match digest_re is_empty
config_of_child w ref child =
    if is_empty child
    then fail wrong_platform
    else if not (full_match digest_re child)
    then fail malformed_child
    else fetch w (manifest_url w ref child) child >>= child_config w

config_in : Web → ImageRef → Manifest → List Entry → M Text
unfolding config_of_child child_of
config_in w ref m [] = return m.config
config_in w ref m (e ∷ es) = config_of_child w ref (child_of (e ∷ es))

config_digest : Web → ImageRef → Manifest → M Text
unfolding config_in
config_digest w ref m = config_in w ref m m.manifests

info_of : ImageRef → Text → Option ImageConfig → M ImageInfo
unfolding is_our_platform
info_of ref digest none = fail unreadable_config
info_of ref digest (some cfg) =
    if is_our_platform cfg.os cfg.arch
    then return
        (record { ref = ref; digest = digest; os = cfg.os; arch = cfg.arch; labels = cfg.labels })
    else fail wrong_platform

info_in : Web → ImageRef → Text → Text × Text → M ImageInfo
unfolding info_of
info_in w ref digest p = info_of ref digest (w.config_of p.0)

from_config : Web → ImageRef → Text → Text → M ImageInfo
unfolding fetch blob_url info_in full_match digest_re is_empty
from_config w ref digest config =
    if is_empty config
    then fail no_config
    else if not (full_match digest_re config)
    then fail malformed_config
    else fetch w (blob_url w ref config) config >>= info_in w ref digest

with_manifest : Web → ImageRef → Text → Manifest → M ImageInfo
unfolding config_digest from_config
with_manifest w ref digest m = config_digest w ref m >>= from_config w ref digest

from_manifest : Web → ImageRef → Text × Text → M ImageInfo
unfolding decoded with_manifest
from_manifest w ref p = decoded (w.manifest_of p.0) >>= with_manifest w ref p.1

unfoldable pub resolve : Web → ImageRef → M ImageInfo
unfolding fetch manifest_url reference from_manifest
resolve w ref = fetch w (manifest_url w ref (reference ref)) ref.digest >>= from_manifest w ref

-- `ImagePullable`, `none` for a nil error.
pull_status : Result Response → Option RegError
pull_status (err e) = some e
pull_status (ok r) =
    if r.status == 200
    then none
    else if r.status == 404
    then some does_not_exist
    else some (http_status r.status)

pull_parsed : Web → Ref.Parsed → Option RegError
unfolding pull_status do_request manifest_url reference
pull_parsed w (Ref.err e) = some (bad_ref e)
pull_parsed w (Ref.ok r) =
    pull_status (do_request w head_method (manifest_url w r (reference r)) new_client).0

unfoldable pub image_pullable : Web → Text → Option RegError
unfolding pull_parsed parse_ref
image_pullable w s = pull_parsed w (parse_ref s)
