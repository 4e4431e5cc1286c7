-- ===== src/Links/Insert.antt =====
-- `list_add` and `list_add_tail` of include/list.h against sequences.
use ze_ospi.Base.{◌≡◌, sym, ◌≢◌, List, [], ◌∷◌, ◌++◌, arith, All}
use ze_ospi.Links.{Ptr, Links, raw_list_add, list_add, list_add_tail}
use ze_ospi.Links.Chain.{
  Apart, Distinct, IsQueue, last, prev-last, last-ne, Chain-frame, Chain-relink, Chain-append,
}

-- What an insertion between `prev` and `next` leaves alone.
raw_list_add-next :
    (h : Links) (new prev next a : Ptr)
    → a ≢ prev
    → a ≢ new
    → (raw_list_add new prev next h).next a ≡ h.next a
unfolding raw_list_add
raw_list_add-next h new prev next a p q = ground arith

raw_list_add-prev :
    (h : Links) (new prev next a : Ptr)
    → a ≢ next
    → a ≢ new
    → (raw_list_add new prev next h).prev a ≡ h.prev a
unfolding raw_list_add
raw_list_add-prev h new prev next a p q = ground arith

raw_list_add-links :
    (h : Links) (new prev next : Ptr)
    → new ≢ prev
    → new ≢ next
    → let g = raw_list_add new prev next h in
      (g.next prev ≡ new) × (g.prev new ≡ prev) × (g.next new ≡ next) × (g.prev next ≡ new)
unfolding raw_list_add
raw_list_add-links h new prev next p q = ground arith

-- The entries of a list that are neither `a`, `b` nor `c` keep their fields.
kept :
    (h : Links) (new prev next : Ptr) (xs : List Ptr)
    → Apart new xs
    → Apart prev xs
    → Apart next xs
    → let g = raw_list_add new prev next h in
      All (λ x. (g.next x ≡ h.next x) × (g.prev x ≡ h.prev x)) xs
kept h new prev next [] a b c = tt
kept h new prev next (x ∷ xs) a b c = (
  (
    raw_list_add-next h new prev next x (λ e. b.0 (sym e)) (λ e. a.0 (sym e)),
    raw_list_add-prev h new prev next x (λ e. c.0 (sym e)) (λ e. a.0 (sym e)),
  ),
  kept h new prev next xs a.1 b.1 c.1,
)

kept_prev :
    (h : Links) (new prev next : Ptr) (xs : List Ptr)
    → Apart new xs
    → Apart next xs
    → All (λ x. (x ≢ new) × ((raw_list_add new prev next h).prev x ≡ h.prev x)) xs
kept_prev h new prev next [] a c = tt
kept_prev h new prev next (x ∷ xs) a c = (
  ((λ e. a.0 (sym e)), raw_list_add-prev h new prev next x (λ e. c.0 (sym e)) (λ e. a.0 (sym e))),
  kept_prev h new prev next xs a.1 c.1,
)

-- `list_add` puts an entry that is not in the queue in front of it.
pub list_add-cons :
    {h : Links} {head : Ptr} {xs : List Ptr} (new : Ptr)
    → IsQueue h head xs
    → new ≢ head
    → Apart new xs
    → IsQueue (list_add new head h) head (new ∷ xs)
unfolding list_add
list_add-cons {h} {head} {xs = []} new q ne out = ground arith
list_add-cons {h} {head} {xs = x ∷ xs} new q ne out =
    let e : h.next head ≡ x = q.chain.0 in
    let l = raw_list_add-links h new head x ne out.0 in
    let front = λ (a : head ≡ new). ne (sym a) in
    rw e (record {
      chain = (
        l.0,
        l.1,
        (
          l.2,
          l.3,
          Chain-frame h (raw_list_add new head x h) x xs head q.chain.2
              (raw_list_add-next h new head x x (λ a. q.apart.0 (sym a)) (λ a. out.0 (sym a)))
              (kept h new head x xs out.1 q.apart.1 q.distinct.0)
              (raw_list_add-prev h new head x head q.apart.0 front),
        ),
      );
      apart = (front, q.apart);
      distinct = (out, q.distinct);
    })

Apart-append : (a : Ptr) (xs ys : List Ptr) → Apart a xs → Apart a ys → Apart a (xs ++ ys)
Apart-append a [] ys p q = q
Apart-append a (x ∷ xs) ys p q = (p.0, Apart-append a xs ys p.1 q)

Distinct-snoc : (a : Ptr) (xs : List Ptr) → Apart a xs → Distinct xs → Distinct (xs ++ a ∷ [])
Distinct-snoc a [] p d = (tt, tt)
Distinct-snoc a (x ∷ xs) p d =
    (Apart-append x xs (a ∷ []) d.0 ((λ e. p.0 (sym e)), tt), Distinct-snoc a xs p.1 d.1)

-- `list_add_tail` puts an entry that is not in the queue behind it.
pub list_add_tail-snoc :
    {h : Links} {head : Ptr} {xs : List Ptr} (new : Ptr)
    → IsQueue h head xs
    → new ≢ head
    → Apart new xs
    → IsQueue (list_add_tail new head h) head (xs ++ new ∷ [])
unfolding list_add_tail
list_add_tail-snoc {h} {head} {xs} new q ne out =
    let end = last head xs in
    let e : h.prev head ≡ end = prev-last h head xs head q.chain in
    let l = raw_list_add-links h new end head (last-ne new head xs ne out) ne in
    let front = λ (a : head ≡ new). ne (sym a) in
    rw e (record {
      chain =
          Chain-append (raw_list_add new end head h) head xs new [] head
            (Chain-relink h (raw_list_add new end head h) head xs head new q.chain q.apart
              q.distinct l.0 l.1 (λ a b c. raw_list_add-next h new end head a b c)
              (kept_prev h new end head xs out q.apart) front)
            (l.2, l.3);
      apart = Apart-append head xs (new ∷ []) q.apart (front, tt);
      distinct = Distinct-snoc new xs out q.distinct;
    })

raw_list_add-frame :
    {h : Links} {other : Ptr} {ys : List Ptr} (new prev next : Ptr)
    → IsQueue h other ys
    → Apart new (other ∷ ys)
    → Apart prev (other ∷ ys)
    → Apart next (other ∷ ys)
    → IsQueue (raw_list_add new prev next h) other ys
raw_list_add-frame {h} {other} {ys} new prev next q a b c = record {
  chain =
      Chain-frame h (raw_list_add new prev next h) other ys other q.chain
        (raw_list_add-next h new prev next other (λ e. b.0 (sym e)) (λ e. a.0 (sym e)))
        (kept h new prev next ys a.1 b.1 c.1)
        (raw_list_add-prev h new prev next other (λ e. c.0 (sym e)) (λ e. a.0 (sym e)));
  apart = q.apart;
  distinct = q.distinct;
}

last-Apart :
    (head : Ptr) (xs zs : List Ptr) → All (λ a. Apart a zs) (head ∷ xs) → Apart (last head xs) zs
last-Apart head [] zs d = d.0
last-Apart head (x ∷ xs) zs d = last-Apart x xs zs d.1

-- Appending to one queue leaves a queue alone that shares nothing with it.
pub list_add_tail-frame :
    {h : Links} {head other : Ptr} {xs ys : List Ptr} (new : Ptr)
    → IsQueue h head xs
    → IsQueue h other ys
    → All (λ a. Apart a (other ∷ ys)) (new ∷ head ∷ xs)
    → IsQueue (list_add_tail new head h) other ys
unfolding list_add_tail
list_add_tail-frame {h} {head} {other} {xs} {ys} new q r d =
    rw (prev-last h head xs head q.chain)
      (raw_list_add-frame new (last head xs) head r d.0 (last-Apart head xs (other ∷ ys) d.1) d.1.0)
