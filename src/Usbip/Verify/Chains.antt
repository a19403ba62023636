-- ===== src/Usbip/Verify/Chains.antt =====
-- What `verify_descriptor` accepts: descriptors one behind the other, each with its own length in
-- its first byte.
use remote_yubikey_manager.Common.{
  ℕ, zero, suc, ◌+◌, ◌<◌, ◌≡◌, refl, sym, ap, ◌∙◌, true, [], ◌∷◌, ◌++◌, none, some, arith, length,
  length-append, append_assoc, append-nil, get_elem?, ==_refl,
}
use remote_yubikey_manager.Common.Bytes.{Bytes}
use remote_yubikey_manager.Usbip.Verify.{walk, verify_descriptor}

pub data Chain : Bytes → Type 0 where
  done : Chain []
  link :
      (desc : Bytes) (len : ℕ) (body rest : Bytes)
      → desc ≡ len ∷ (body ++ rest)
      → len ≡ suc (length body)
      → Chain rest
      → Chain desc

pub Chain-append : (ys : Bytes) {xs : Bytes} → Chain xs → Chain ys → Chain (xs ++ ys)
Chain-append ys done c = c
Chain-append ys (link desc len body rest e h t) c =
    link (desc ++ ys) len body (rest ++ ys)
      (ap (λ x. x ++ ys) e ∙ ap (◌∷◌ len) (append_assoc body rest ys)) h (Chain-append ys t c)

get_elem?-length :
    (before rest : Bytes) (x : ℕ) → get_elem? (before ++ (x ∷ rest)) (length before) ≡ some x
get_elem?-length [] rest x = refl
get_elem?-length (b ∷ before) rest x = get_elem?-length before rest x

get_elem?_end : (xs : Bytes) → get_elem? xs (length xs) ≡ none
get_elem?_end [] = refl
get_elem?_end (x ∷ xs) = get_elem?_end xs

walk_step :
    (fuel offset len : ℕ) (desc : Bytes)
    → get_elem? desc offset ≡ some len
    → walk (suc fuel) offset desc ≡ walk fuel (offset + len) desc
unfolding walk
walk_step fuel offset len desc e = rw (e, walk)

walk_end :
    (fuel offset : ℕ) (desc : Bytes)
    → get_elem? desc offset ≡ none
    → walk (suc fuel) offset desc ≡ some offset
unfolding walk
walk_end fuel offset desc e = rw (e, walk)

walk-Chain :
    (fuel : ℕ) (before whole : Bytes) {desc : Bytes}
    → Chain desc
    → whole ≡ before ++ desc
    → length desc < fuel
    → walk fuel (length before) whole ≡ some (length whole)
walk-Chain zero before whole c e h = absurd (omega arith)
walk-Chain (suc fuel) before whole done e h =
    let same : whole ≡ before = e ∙ append-nil before in
    rw same (walk_end fuel (length before) before (get_elem?_end before))
walk-Chain (suc fuel) before whole (link desc len body rest e' hl t) e h =
    walk_step fuel (length before) len whole
      (rw (e, e') (get_elem?-length before (body ++ rest) len))
    ∙ ap (λ o. walk fuel o whole) moved
    ∙ walk-Chain fuel (before ++ (len ∷ body)) whole t regrouped
        (omega (arith, ap length e', length-append body rest))
  where
    moved : length before + len ≡ length (before ++ (len ∷ body))
    moved = omega (arith, length-append before (len ∷ body))

    regrouped : whole ≡ (before ++ (len ∷ body)) ++ rest
    regrouped = e ∙ ap (◌++◌ before) e' ∙ sym (append_assoc before (len ∷ body) rest)

-- On a chain of descriptors, each with its own length in its first byte, the loop ends at the end
-- of the bytes, and the assertion holds.
pub verify_descriptor-Chain : (desc : Bytes) → Chain desc → verify_descriptor desc ≡ some true
unfolding verify_descriptor
verify_descriptor-Chain desc c =
    rw (walk-Chain (suc (length desc)) [] desc c refl (omega arith), verify_descriptor)
      (ap some (==_refl (length desc)))
