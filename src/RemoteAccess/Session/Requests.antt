-- ===== src/RemoteAccess/Session/Requests.antt =====
-- The list of privilege requests of session.go: what `ApprovePrivilege` and `DenyPrivilege` decide.
use onli_desk_full.Common.{
  String, ◌==◌, ◌≡◌, refl, ◌⊎◌, inl, inr, Option, none, some, List, [], ◌∷◌, ◌++◌, arith, eq_iff,
  if◌then◌else◌, Bool-cases,
}
use onli_desk_full.RemoteAccess.Session.{
  PrivilegeRequest, RequestStatus, Result, ok, err, request_not_found, Result-cases,
  request_not_pending, is_pending, decide_request,
}

-- The first request with an identifier, and the list with that one changed.
unfoldable pub find_request : String → List PrivilegeRequest → Option PrivilegeRequest
find_request k [] = none
find_request k (r ∷ rs) = if r.id == k then some r else find_request k rs

pub change_request :
    String → (PrivilegeRequest → PrivilegeRequest) → List PrivilegeRequest → List PrivilegeRequest
change_request k f [] = []
change_request k f (r ∷ rs) = if r.id == k then f r ∷ rs else r ∷ change_request k f rs

abbrev pub verdict :
    Option PrivilegeRequest
    → List PrivilegeRequest
    → Result (PrivilegeRequest × List PrivilegeRequest)
verdict none rs = err request_not_found
verdict (some r) rs = if is_pending r.status then ok (r, rs) else err request_not_pending

-- The loop is a lookup, a test, and an update.
pub decide_request-verdict :
    (k : String) (f : PrivilegeRequest → PrivilegeRequest) (rs : List PrivilegeRequest)
    → decide_request k f rs ≡ verdict (find_request k rs) (change_request k f rs)
unfolding decide_request find_request change_request
decide_request-verdict k f [] = refl
decide_request-verdict k f (r ∷ rs) = ground (arith, decide_request-verdict k f rs)

pub find_request-change_request :
    (k j : String) (f : PrivilegeRequest → PrivilegeRequest) (rs : List PrivilegeRequest)
    → ((x : PrivilegeRequest) → (f x).id ≡ x.id)
    → (r : PrivilegeRequest) → find_request k rs ≡ some r
    → find_request j (change_request k f rs) ≡ (if k == j then some (f r) else find_request j rs)
unfolding find_request change_request
find_request-change_request k j f [] same r e = absurd (ground arith)
find_request-change_request k j f (x ∷ rs) same r e = ground (
  arith,
  same x,
  eq_iff k j,
  eq_iff x.id k,
  eq_iff x.id j,
  eq_iff (f x).id k,
  eq_iff (f x).id j,
  find_request-change_request k j f rs same r,
)

pub find_request-append :
    (k : String) (rs : List PrivilegeRequest) (x r : PrivilegeRequest)
    → find_request k rs ≡ some r
    → find_request k (rs ++ x ∷ []) ≡ some r
unfolding find_request
find_request-append k [] x r e = absurd (ground arith)
find_request-append k (y ∷ rs) x r e = ground (arith, find_request-append k rs x r)

-- A successful decision is at the head or behind it.
pub decide_request-cons :
    (k : String) (f : PrivilegeRequest → PrivilegeRequest) (r : PrivilegeRequest)
    (rs : List PrivilegeRequest) (x : PrivilegeRequest) (rs' : List PrivilegeRequest)
    → decide_request k f (r ∷ rs) ≡ ok (x, rs')
    → ((r.status ≡ RequestStatus.pending) × (x ≡ r) × (rs' ≡ f r ∷ rs))
      ⊎ ((ys : List PrivilegeRequest) × (decide_request k f rs ≡ ok (x, ys)) × (rs' ≡ r ∷ ys))
unfolding decide_request
decide_request-cons k f r rs x rs' e = elim (Bool-cases (r.id == k)) [
  | inl hit ↦ inl (ground arith, ground arith, ground arith)
  | inr miss ↦ elim (Result-cases (decide_request k f rs)) [
    | inl (e', q) ↦ absurd (ground arith)
    | inr ((y, ys), q) ↦ inr (ys, ground arith, ground arith)
  ]
]
