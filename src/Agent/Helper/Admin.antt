-- ===== src/Agent/Helper/Admin.antt =====
-- Who reaches an executor of the root helper, and what a pause leaves of it.
use hadron_desktop.Base.{
  ℕ, ◌≡◌, ◌≢◌, sym, [], ◌++◌, take, drop, take-append-drop, length, ltb, ◌||◌, not, inl, inr, refl,
  ap, ◌∙◌, Bool, true, false, Option, none, some, List, ◌∷◌, Bool-cases, arith,
}
use hadron_desktop.Base.Text.{
  Text, text, text_eq, text_eq_iff, is_empty, is_empty_iff, to_lower, trim_space,
}
use hadron_desktop.Agent.Wire.{
  Tool, computer_use, bash, read_file, search_files, write_file, patch, browser, other_tool,
  ResultMeta,
}
use hadron_desktop.Agent.Auth.{
  Class, admin, Verifier, Verified, ok, err, verify, digest_bearer, TokenInfo, AuthError,
}
use hadron_desktop.Agent.Auth.Verify.{IsOrder, IsBearer, IsAccepted, verify_iff}
use hadron_desktop.Agent.Session.{Gate, live, Race, executed, finish}
use hadron_desktop.Agent.Session.Guard.{guard_iff}
use hadron_desktop.Agent.Helper.{
  Helper, root_identity, is_os_tool, enter, pause, resume, close, status, raw_bearer,
  token_of_header, non_empty, verify_admin, verify_raw, error_of, call, dispatch, dispatch_call,
  guarded, after_verify,
}

-- The tools of the operating system.
pub data IsOsTool : Tool → Type 0 where
  runs : IsOsTool bash
  reads : IsOsTool read_file
  searches : IsOsTool search_files
  writes : IsOsTool write_file
  patches : IsOsTool patch

is_os_tool-IsOsTool : (tool : Tool) → is_os_tool tool ≡ true → IsOsTool tool
unfolding is_os_tool
is_os_tool-IsOsTool bash e = runs
is_os_tool-IsOsTool read_file e = reads
is_os_tool-IsOsTool search_files e = searches
is_os_tool-IsOsTool write_file e = writes
is_os_tool-IsOsTool patch e = patches
is_os_tool-IsOsTool computer_use e = cc (e)
is_os_tool-IsOsTool browser e = cc (e)
is_os_tool-IsOsTool (other_tool name) e = cc (e)

-- `Authorization: Bearer <raw>`: without the space around it, the header is the word bearer, in upper
-- or lower case, a space, and a part that without the space around it is the bearer.
pub record Carries (header raw : Text) : Type 0 where
  pub scheme : Text
  pub rest : Text
  pub header_eq : trim_space header ≡ scheme ++ rest
  pub scheme_eq : to_lower scheme ≡ text "bearer "
  pub raw_eq : raw ≡ trim_space rest
  pub some_raw : raw ≢ []

non_empty-eq_some : (tok raw : Text) → non_empty tok ≡ some raw → (raw ≡ tok) × (raw ≢ [])
unfolding non_empty
non_empty-eq_some tok raw h = elim (Bool-cases (is_empty tok)) [
  | inl e ↦ absurd (cc (rw e at h))
  | inr e ↦
      let same : tok ≡ raw = cc (rw e at h) in
      (sym same, λ z. cc (e, (is_empty_iff tok).1 (same ∙ z)))
]

raw_bearer-Carries : (header raw : Text) → raw_bearer header ≡ some raw → Carries header raw
unfolding raw_bearer token_of_header
raw_bearer-Carries header raw h =
    let t = trim_space header in
    elim (Bool-cases (ltb (length t) 7 || not (text_eq (to_lower (take 7 t)) (text "bearer ")))) [
      | inl e ↦ absurd (cc (rw e at h))
      | inr e ↦
          let (same, full) = non_empty-eq_some (trim_space (drop 7 t)) raw (rw e at h) in
          record {
            scheme = take 7 t;
            rest = drop 7 t;
            header_eq = sym (take-append-drop 7 t);
            scheme_eq = ground (arith, text_eq_iff (to_lower (take 7 t)) (text "bearer "));
            raw_eq = same;
            some_raw = full;
          }
    ]

-- The header carries a bearer that the helper's own verifier accepts for the class admin.
pub record IsAdmin (sha256 : Text → List ℕ) (now : ℕ) (v : Verifier) (header : Text) : Type 0 where
  pub raw : Text
  pub carried : Carries header raw
  pub bearer : IsBearer admin raw
  pub accepted : IsAccepted v.admin now (digest_bearer sha256 raw)

enter-eq_live :
    (h : Helper) (n : ℕ) → enter h ≡ some (live n) → (h.is_paused ≡ false) × (h.is_closed ≡ false)
unfolding enter
enter-eq_live h n e = ground arith

guarded-eq_executed :
    (h : Helper) (o : Option Gate) (r : Race) (out m : ResultMeta)
    → enter h ≡ o
    → guarded o r out ≡ some (executed m)
    → (h.is_paused ≡ false)
      × (h.is_closed ≡ false)
      × (m ≡ finish r.done_at_end r.caller_done root_identity out)
unfolding guarded
guarded-eq_executed h none r out m e k = absurd (cc)
guarded-eq_executed h (some g) r out m e k =
    let (clear, same) = (guard_iff true g r root_identity out m).0 (cc) in
    let ((n, is_live), slot) = clear in
    let (p, c) = enter-eq_live h n (e ∙ ap some is_live) in (p, c, same)

dispatch-eq_executed :
    (tool : Tool) (decodes : Bool) (h : Helper) (r : Race) (out m : ResultMeta)
    → dispatch tool decodes h r out ≡ some (executed m)
    → guarded (enter h) r out ≡ some (executed m)
unfolding dispatch dispatch_call
dispatch-eq_executed bash decodes h r out m e = ground arith
dispatch-eq_executed tool decodes h r out m e = ground arith

after_verify-eq_executed :
    (o : Option AuthError) (tool : Tool) (decodes : Bool) (h : Helper) (r : Race)
    (out m : ResultMeta)
    → after_verify o tool decodes h r out ≡ some (executed m)
    → (o ≡ none) × (dispatch tool decodes h r out ≡ some (executed m))
unfolding after_verify
after_verify-eq_executed (some x) tool decodes h r out m e = absurd (cc)
after_verify-eq_executed none tool decodes h r out m e = (refl, e)

module _ (sha256 : Text → List ℕ) (order : List Class) (now : ℕ) (every : IsOrder order) where
  error_of-eq_none : (o : Verified) → error_of o ≡ none → (t : TokenInfo) × (o ≡ ok t)
  unfolding error_of
  error_of-eq_none (ok t) h = (t, refl)
  error_of-eq_none (err e) h = absurd (cc)

  verify_raw_sound :
      (v : Verifier) (header : Text) (o : Option Text)
      → raw_bearer header ≡ o
      → verify_raw sha256 order now v o ≡ none
      → IsAdmin sha256 now v header
  unfolding verify_raw
  verify_raw_sound v header none e h = absurd (cc)
  verify_raw_sound v header (some raw) e h =
      let (t, fine) = error_of-eq_none (verify sha256 order now v raw admin) h in
      let (bearer, accepted, same) = (verify_iff sha256 order now v raw admin t every).0 fine in
      record {
        raw = raw;
        carried = raw_bearer-Carries header raw e;
        bearer = bearer;
        accepted = accepted;
      }

  verify_admin_sound :
      (v : Verifier) (header : Text)
      → verify_admin sha256 order now v header ≡ none
      → IsAdmin sha256 now v header
  unfolding verify_admin
  verify_admin_sound v header h = elim (Bool-cases (is_empty (trim_space header))) [
    | inl e ↦ absurd (cc (rw e at h))
    | inr e ↦ verify_raw_sound v header (raw_bearer header) refl (rw e at h)
  ]

  -- A call of the root helper executes only for bash, read_file, search_files, write_file or patch,
  -- under a header of the scheme Bearer with a bearer
  -- that the helper's own verifier accepts as admin, while the helper is neither paused nor closed.
  pub call-IsAdmin :
      (tool : Tool) (decodes : Bool) (header : Text) (h : Helper) (r : Race) (out m : ResultMeta)
      → call sha256 order now tool decodes header h r out ≡ some (executed m)
      → IsOsTool tool
        × IsAdmin sha256 now h.verifier header
        × (h.is_paused ≡ false)
        × (h.is_closed ≡ false)
        × (m ≡ finish r.done_at_end r.caller_done root_identity out)
  unfolding call
  call-IsAdmin tool decodes header h r out m e = elim (Bool-cases (is_os_tool tool)) [
    | inr f ↦ absurd (cc (rw f at e))
    | inl f ↦
        let (verified, ran) =
          after_verify-eq_executed (verify_admin sha256 order now h.verifier header) tool decodes h
            r out m (rw f at e) in
        let (p, c, same) =
          guarded-eq_executed h (enter h) r out m refl
            (dispatch-eq_executed tool decodes h r out m ran) in
        (is_os_tool-IsOsTool tool f, verify_admin_sound h.verifier header verified, p, c, same)
  ]

dispatch_blocks :
    (tool : Tool) (h : Helper) (r : Race) (out : ResultMeta)
    → h.is_locked ≡ true
    → is_os_tool tool ≡ true
    → dispatch tool true h r out ≡ none
unfolding dispatch dispatch_call guarded enter is_os_tool
dispatch_blocks bash h r out l t = rw l
dispatch_blocks tool h r out l t = ground arith

call_blocks :
    (sha256 : Text → List ℕ) (order : List Class) (now : ℕ) (h : Helper) (tool : Tool)
    (header : Text) (r : Race) (out : ResultMeta)
    → h.is_locked ≡ true
    → is_os_tool tool ≡ true
    → verify_admin sha256 order now h.verifier header ≡ none
    → call sha256 order now tool true header h r out ≡ none
unfolding call after_verify
call_blocks sha256 order now h tool header r out l t a =
    rw (t, a) (dispatch_blocks tool h r out l t)

-- A helper that is open when it is paused is never heard of again: the pause returns with the mutex
-- held, so that a further pause, a resume, a close, the status and every call that would reach a
-- tool wait for ever.
pub helper_pause_blocks :
    (sha256 : Text → List ℕ) (order : List Class) (now : ℕ) (h : Helper) (tool : Tool)
    (header : Text) (r : Race) (out : ResultMeta)
    → h.is_locked ≡ false
    → h.is_closed ≡ false
    → h.is_paused ≡ false
    → is_os_tool tool ≡ true
    → verify_admin sha256 order now h.verifier header ≡ none
    → (after : Helper) × (pause h ≡ some after)
      × (pause after ≡ none)
      × (resume after ≡ none)
      × (close after ≡ none)
      × (status after ≡ none)
      × (call sha256 order now tool true header after r out ≡ none)
unfolding pause resume close status
helper_pause_blocks sha256 order now h tool header r out l c p t a =
    let after : Helper = record h {
      is_locked = true;
      is_paused = true;
      cancelled = h.gen ∷ h.cancelled;
    } in
    (
      after,
      ground arith,
      refl,
      refl,
      refl,
      refl,
      call_blocks sha256 order now after tool header r out refl t a,
    )
