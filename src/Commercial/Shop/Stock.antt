-- ===== src/Commercial/Shop/Stock.antt =====
-- The stock of the shop through a sale and its cancellation.
use zylo_office_backend.Prelude.{
  ℕ, ◌+◌, ◌-◌, true, not, ◌||◌, ◌≡◌, refl, sym, ap, ◌∙◌, inl, inr, List, [], ◌∷◌, map, ◌==◌, nat_eq,
  leb, if◌then◌else◌, all, ok, Bool-cases, arith, leb→le, guard->>-eq-ok, >>=-eq-ok, ok-injective,
  insufficient_stock, and-true,
}
use zylo_office_backend.Commercial.Tables.{SellableProduct, ProductSaleLine}
use zylo_office_backend.Commercial.Shop.{decrement, decrement_all, restored, increment_all}

abbrev taken : ProductSaleLine → SellableProduct → SellableProduct
taken l p =
    if p.id == l.sellable_product_id
    then record p { stock_quantity = p.stock_quantity - l.quantity }
    else p

with_stock : SellableProduct → ℕ → SellableProduct
with_stock p n = record p { stock_quantity = n }

-- Taking and giving back what was there.
restored-taken :
    (l : ProductSaleLine) (p : SellableProduct)
    → (not (p.id == l.sellable_product_id) || leb l.quantity p.stock_quantity) ≡ true
    → restored l (taken l p) ≡ p
unfolding with_stock
restored-taken l p h = elim (Bool-cases (p.id == l.sellable_product_id)) [
  | inl e ↦
      let enough = leb→le l.quantity p.stock_quantity (rw e at h) in
      let back : p.stock_quantity - l.quantity + l.quantity ≡ p.stock_quantity = omega arith in
      let took : taken l p ≡ with_stock p (p.stock_quantity - l.quantity) = rw e refl in
      let gave : restored l (with_stock p (p.stock_quantity - l.quantity))
          ≡ with_stock p (p.stock_quantity - l.quantity + l.quantity) =
        rw e refl in
      ap (restored l) took ∙ gave ∙ ap (with_stock p) back
  | inr e ↦
      let took : taken l p ≡ p = rw e refl in
      let gave : restored l p ≡ p = rw e refl in ap (restored l) took ∙ gave
]

-- The rows that a line accepts are there again after its products are given back.
rows-restored :
    (l : ProductSaleLine) (products : List SellableProduct)
    → all
        (λ (p : SellableProduct).
          not (p.id == l.sellable_product_id) || leb l.quantity p.stock_quantity)
        products
      ≡ true
    → map (restored l) (map (taken l) products) ≡ products
unfolding all
rows-restored l [] h = refl
rows-restored l (p ∷ ps) h =
    let (first, rest) = and-true _ _ h in
    rw (restored-taken l p first, rows-restored l ps rest) refl

-- What a line gives to a product.
share : ProductSaleLine → ℕ → ℕ
share l i = if i == l.sellable_product_id then l.quantity else 0

restored-share :
    (l : ProductSaleLine) (p : SellableProduct)
    → restored l p ≡ with_stock p (p.stock_quantity + share l p.id)
unfolding with_stock share
restored-share l p = elim (Bool-cases (p.id == l.sellable_product_id)) [
  | inl e ↦ rw e refl
  | inr e ↦
      let same : p.stock_quantity + 0 ≡ p.stock_quantity = omega arith in
      rw e (ap (with_stock p) (sym same))
]

-- Giving back two lines, in either order.
restored_comm :
    (l k : ProductSaleLine) (p : SellableProduct)
    → restored l (restored k p) ≡ restored k (restored l p)
unfolding with_stock
restored_comm l k p =
    let both : p.stock_quantity + share k p.id + share l p.id
        ≡ p.stock_quantity + share l p.id + share k p.id =
      omega arith in
    ap (restored l) (restored-share k p)
    ∙ restored-share l (with_stock p (p.stock_quantity + share k p.id))
    ∙ ap (with_stock p) both
    ∙ sym (restored-share k (with_stock p (p.stock_quantity + share l p.id)))
    ∙ ap (restored k) (sym (restored-share l p))

maps_comm :
    (l k : ProductSaleLine) (products : List SellableProduct)
    → map (restored l) (map (restored k) products) ≡ map (restored k) (map (restored l) products)
maps_comm l k [] = refl
maps_comm l k (p ∷ ps) = rw (restored_comm l k p, maps_comm l k ps) refl

increment_all-map :
    (l : ProductSaleLine) (ls : List ProductSaleLine) (products : List SellableProduct)
    → increment_all ls (map (restored l) products) ≡ map (restored l) (increment_all ls products)
unfolding increment_all
increment_all-map l [] products = refl
increment_all-map l (k ∷ ks) products =
    rw (maps_comm k l products) (increment_all-map l ks (map (restored k) products))

-- All that a ticket took is there again when its lines are given back.
pub increment_all-decrement_all :
    (ls : List ProductSaleLine) (products left : List SellableProduct)
    → decrement_all ls products ≡ ok left
    → increment_all ls left ≡ products
unfolding decrement_all increment_all decrement
increment_all-decrement_all [] products left h = sym (ok-injective products left h)
increment_all-decrement_all (l ∷ ls) products left h =
    let (mid, first, rest) = >>=-eq-ok (decrement l products) (decrement_all ls) h in
    let (enough, done) =
      guard->>-eq-ok
        (all
          (λ (p : SellableProduct).
            not (p.id == l.sellable_product_id) || leb l.quantity p.stock_quantity)
          products)
        insufficient_stock (ok (map (taken l) products)) first in
    increment_all-map l ls left
    ∙ ap (map (restored l)) (increment_all-decrement_all ls mid left rest)
    ∙ ap (map (restored l)) (sym (ok-injective (map (taken l) products) mid done))
    ∙ rows-restored l products enough
