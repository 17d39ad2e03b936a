-- ===== src/Agent/Tests/Credentials.antt =====
-- Bearers, and the verifier of two classes.
use mathlib.Core.List.{Memᴰ}
use hadron_desktop.Base.{
  ℕ, ◌+◌, ◌≡◌, ◌↔◌, refl, none, some, List, [], ◌∷◌, ◌++◌, get_or, replicate, arith,
}
use hadron_desktop.Base.Text.{Text, text, hex_encode}
use hadron_desktop.Agent.Wire.{served, forbidden, unauthenticated}
use hadron_desktop.Agent.Auth.{
  Class, prefix_by_class, parse_bearer_class, user, admin, unknown, Verifier, built,
  new_verifier_at, max_rotation_overlap, digest_bearer, config_for, verify, ok, err, wrong_class,
  malformed_bearer, of_verify, other_error, code,
}
use hadron_desktop.Agent.Auth.Verify.{
  IsOrder, IsBearer, IsAccepted, token_of, verify_iff, rotation_ends,
}

-- A digest function that reads the byte which tells the two classes apart.
abbrev pub sha256 : Text → List ℕ
sha256 t = replicate 32 (get_or t 4 0)

abbrev pub order : List Class
order = admin ∷ user ∷ []

pub order-IsOrder : IsOrder order
order-IsOrder = record {
  has_user = Memᴰ.tail (Memᴰ.head refl);
  has_admin = Memᴰ.head refl;
  known = no_unknown;
}
  where
    no_unknown : (s : Text) → Memᴰ (unknown s) order → ⊥
    no_unknown s (Memᴰ.head e) = cc (e)
    no_unknown s (Memᴰ.tail (Memᴰ.head e)) = cc (e)
    no_unknown s (Memᴰ.tail (Memᴰ.tail m)) = elim m [ ]

abbrev pub payload : Text
payload = replicate 43 b'x'

pub user_bearer : Text
unfolding text
user_bearer = text "hdn_u_" ++ payload

unfoldable pub admin_bearer : Text
unfolding text
admin_bearer = text "hdn_a_" ++ payload

-- The user class has the digest of an older bearer until instant 9, the admin class none.
unfoldable pub verifier : Verifier
unfolding text digest_bearer
verifier = record {
  user = record {
    current = digest_bearer sha256 (text "hdn_u_");
    previous = digest_bearer sha256 (text "hdn_a_");
    previous_valid_until = 9;
  };
  admin = record {
    current = digest_bearer sha256 (text "hdn_a_");
    previous = [];
    previous_valid_until = 0;
  };
}

verify_iff_example :
    (verify sha256 order 5 verifier admin_bearer admin ≡ ok (token_of sha256 admin admin_bearer))
    ↔ (IsBearer admin admin_bearer
        × IsAccepted (config_for verifier admin) 5 (digest_bearer sha256 admin_bearer)
        × (token_of sha256 admin admin_bearer ≡ token_of sha256 admin admin_bearer))
verify_iff_example =
    verify_iff sha256 order 5 verifier admin_bearer admin (token_of sha256 admin admin_bearer)
      order-IsOrder

accepted :
    verify sha256 order 5 verifier admin_bearer admin ≡ ok (token_of sha256 admin admin_bearer)
unfolding verify verifier admin_bearer parse_bearer_class prefix_by_class hex_encode
accepted = refl

-- The same bearer for the other class, a bearer that is cut, and one under an unknown prefix.
wrong : verify sha256 order 5 verifier admin_bearer user ≡ err wrong_class
unfolding verify verifier admin_bearer parse_bearer_class prefix_by_class hex_encode
wrong = refl

cut_off : verify sha256 order 5 verifier (text "hdn_a_x") admin ≡ err malformed_bearer
unfolding verify verifier text parse_bearer_class prefix_by_class
cut_off = refl

other_prefix : verify sha256 order 5 verifier (text "hdn_b_" ++ payload) user ≡ err malformed_bearer
unfolding verify verifier text parse_bearer_class prefix_by_class
other_prefix = refl

codes :
    (code none ≡ served)
    × (code (some (of_verify wrong_class)) ≡ forbidden)
    × (code (some other_error) ≡ unauthenticated)
unfolding code
codes = (refl, refl, refl)

rotation_ends_example : digest_bearer sha256 user_bearer ≡ verifier.user.current
rotation_ends_example =
    rotation_ends sha256 order 1 (max_rotation_overlap + 2) verifier.user verifier.admin verifier
      user_bearer user (token_of sha256 user user_bearer) order-IsOrder is_built (omega arith)
      is_accepted
  where
    is_built : new_verifier_at 1 verifier.user verifier.admin ≡ built verifier
    is_built = unfold new_verifier_at verifier digest_bearer hex_encode in refl

    is_accepted :
        verify sha256 order (max_rotation_overlap + 2) verifier user_bearer user
        ≡ ok (token_of sha256 user user_bearer)
    is_accepted =
        unfold verify verifier user_bearer parse_bearer_class prefix_by_class digest_bearer
          hex_encode in
        refl
