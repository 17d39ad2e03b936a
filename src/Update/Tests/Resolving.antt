-- ===== src/Update/Tests/Resolving.antt =====
-- A look-up through a token handshake, on a registry with one image.
use hadron_desktop.Base.{
  ℕ, ◌≡◌, ◌≤◌, ◌⊎◌, refl, Option, none, some, List, [], ◌++◌, All, length, get_or, replicate,
  if◌then◌else◌,
}
use hadron_desktop.Base.Text.{Text, text, text_eq, hex_encode, has_prefix, is_empty, cut, get}
use hadron_desktop.Base.Regex.{full_match}
use hadron_desktop.Update.Ref.{
  ImageRef, reference, digest_re, host_re, tag_re, name_re, parse_ref, host_required,
}
use hadron_desktop.Update.Policy.{ImageInfo}
use hadron_desktop.Update.Registry.{
  Request, Response, Web, Client, new_client, ok, resolve, fetch, manifest_url, blob_url,
  do_request, send, ask, anonymous_token, bearer_params, token_realm_allowed, registry_base,
  digest_of, is_our_platform, image_pullable, bad_ref, does_not_exist,
}
use hadron_desktop.Update.Registry.Content.{IsResolved, resolve-IsResolved}
use hadron_desktop.Update.Registry.Handshake.{ToRegistry, ToTokenService, resolve_requests}

challenge : Text
unfolding text
challenge = text "Bearer realm=\"https://auth.x/token\",service=\"s\",scope=\"pull\""

-- The token service gives a token; the registry wants it, and serves a manifest and a config.
reply : ℕ → Text → Response
reply status body = record {
  status = status;
  challenge = [];
  content_digest = [];
  body = some body;
}

answer : List Request → Request → Option Response
unfolding text has_prefix is_empty challenge reply
answer log q =
    if has_prefix q.url (text "https://auth.x/token?")
    then some (reply 200 (text "t"))
    else if is_empty q.authorization
    then some (record { status = 401; challenge = challenge; content_digest = []; body = none })
    else if has_prefix q.url (text "https://quay.io/v2/k/h/blobs/")
    then some (reply 200 (text "c"))
    else if has_prefix q.url (text "https://quay.io/v2/k/h/manifests/v1")
    then some (reply 200 (text "m"))
    else some (reply 404 [])

sha256 : Text → List ℕ
sha256 s = replicate 32 (get_or s 0 0)

config_digest : Text
unfolding text sha256 hex_encode
config_digest = text "sha256:" ++ hex_encode (sha256 (text "c"))

web : Web
unfolding answer sha256 config_digest text text_eq
web = record {
  registry_env = [];
  answer = answer;
  scheme_host = λ u. some (text "https", text "auth.x");
  encode = λ ps. text "service=s&scope=pull";
  sha256 = sha256;
  token_of = λ s. some (text "tok", []);
  manifest_of = λ s.
      if text_eq s (text "m")
      then some (record { manifests = []; config = config_digest })
      else none;
  config_of = λ s. some (record { os = text "linux"; arch = text "amd64"; labels = [] });
}

ref : ImageRef
unfolding text
ref = record { host = text "quay.io"; name = text "k/h"; tag = text "v1"; digest = [] }

info : ImageInfo
unfolding text sha256 hex_encode ref
info = record {
  ref = ref;
  digest = text "sha256:" ++ hex_encode (sha256 (text "m"));
  os = text "linux";
  arch = text "amd64";
  labels = [];
}

-- One handshake serves both fetches.
after : Client
unfolding resolve web ref
after = (resolve web ref new_client).1

resolves : resolve web ref new_client ≡ (ok info, after)
unfolding resolve web ref info after fetch do_request send ask anonymous_token bearer_params
    token_realm_allowed registry_base digest_of manifest_url blob_url reference is_our_platform
    full_match digest_re get text_eq cut
resolves = refl

resolve-IsResolved_example : IsResolved web ref info
resolve-IsResolved_example = resolve-IsResolved web ref new_client after info resolves

resolve_requests_example :
    All
      (λ (q : Request). ToRegistry web ref q ⊎ ToTokenService web q)
      (resolve web ref new_client).1.log
    × (length (resolve web ref new_client).1.log ≤ 9)
resolve_requests_example = resolve_requests web ref

missing : image_pullable web (text "quay.io/k/other:v1") ≡ some does_not_exist
unfolding image_pullable web parse_ref text registry_base do_request send ask anonymous_token
    bearer_params token_realm_allowed manifest_url reference get text_eq cut full_match host_re
    tag_re name_re
missing = refl

no_host : image_pullable web (text "other") ≡ some (bad_ref host_required)
unfolding image_pullable parse_ref text cut
no_host = refl
