-- ===== src/Server/Pool/Membership.antt =====
-- add_to_serverpool and remove_from_serverpool of src/server.c.
use bcirc.Base.{
  ℕ, List, [], ◌∷◌, ◌++◌, some, ◌≡◌, ◌≢◌, refl, ap, ◌∙◌, inl, inr, arith, Bool-cases, keep, All,
  append-nil, ◌==◌, if◌then◌else◌,
}
use bcirc.Server.{Bots, set_bot}
use bcirc.Server.Pool.{add_to_serverpool, remove_from_serverpool, other_server}

keep-append :
    (srv : ℕ) (xs ys : List ℕ)
    → keep (other_server srv) (xs ++ ys) ≡ keep (other_server srv) xs ++ keep (other_server srv) ys
keep-append srv [] ys = refl
keep-append srv (x ∷ xs) ys = elim (Bool-cases (other_server srv x)) [
  | inl stays ↦ rw (stays, keep) (ap (λ (l : List ℕ). x ∷ l) (keep-append srv xs ys))
  | inr goes ↦ rw (goes, keep) (keep-append srv xs ys)
]

keep_absent : (srv : ℕ) (xs : List ℕ) → All (λ x. x ≢ srv) xs → keep (other_server srv) xs ≡ xs
keep_absent srv [] h = refl
keep_absent srv (x ∷ xs) h = ground (arith, keep_absent srv xs h.1, h.0)

keep_gone : (srv : ℕ) (xs : List ℕ) → All (λ x. x ≢ srv) (keep (other_server srv) xs)
keep_gone srv [] = tt
keep_gone srv (x ∷ xs) = elim (Bool-cases (other_server srv x)) [
  | inl stays ↦ rw (stays, keep) ((λ e. ground (arith, stays, e)), keep_gone srv xs)
  | inr goes ↦ rw (goes, keep) (keep_gone srv xs)
]

keep_self : (srv : ℕ) → keep (other_server srv) (srv ∷ []) ≡ []
keep_self srv = ground arith

keep_other :
    (srv x : ℕ) (after : List ℕ)
    → x ≢ srv
    → keep (other_server srv) (x ∷ after) ≡ x ∷ keep (other_server srv) after
keep_other srv x after other = ground arith

-- A server that is not in the pool: adding it puts it behind the others and starts its thread, if
-- pthread_create succeeds, and does nothing else; removing it again takes exactly it out of the pool,
-- while the started thread goes on.
pub remove_from_serverpool-add_to_serverpool :
    (thread_result srv : ℕ) (h : Bots)
    → All (λ x. x ≢ srv) h.world.server_list
    → let h' = (add_to_serverpool thread_result (some srv) h).1 in
      let started = if thread_result == 0 then h.world.threads ++ srv ∷ [] else h.world.threads in
      (h'
        ≡ set_bot h
            (λ b. record b { server_list = h.world.server_list ++ srv ∷ []; threads = started }))
      × ((remove_from_serverpool (some srv) h').1 ≡ set_bot h (λ b. record b { threads = started }))
unfolding remove_from_serverpool add_to_serverpool
remove_from_serverpool-add_to_serverpool thread_result srv h fresh =
    let same : keep (other_server srv) (h.world.server_list ++ srv ∷ []) ≡ h.world.server_list =
      keep-append srv h.world.server_list (srv ∷ [])
      ∙ (rw (keep_absent srv h.world.server_list fresh, keep_self srv) (append-nil _)) in
    (
      refl,
      ap
          (λ (l : List ℕ). set_bot h (λ b. record b {
            server_list = l;
            threads = (if thread_result == 0 then b.threads ++ srv ∷ [] else b.threads);
          }))
          same,
    )

-- A server that was removed is not in the pool, whatever the pool held; every other server that
-- was in it is.
remove_from_serverpool_lem :
    (srv : ℕ) (h : Bots) (before after : List ℕ) (x : ℕ)
    → h.world.server_list ≡ before ++ x ∷ after
    → x ≢ srv
    → let h' = (remove_from_serverpool (some srv) h).1 in
      All (λ y. y ≢ srv) h'.world.server_list
      × ((before' after' : List ℕ) × (h'.world.server_list ≡ before' ++ x ∷ after'))
unfolding remove_from_serverpool
remove_from_serverpool_lem srv h before after x split other = (
  keep_gone srv h.world.server_list,
  (
    keep (other_server srv) before,
    keep (other_server srv) after,
    rw split (keep-append srv before (x ∷ after) ∙ rw (keep_other srv x after other)),
  ),
)
