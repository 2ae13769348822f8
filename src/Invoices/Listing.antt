-- ===== src/Invoices/Listing.antt =====
-- `list_invoices` of app/services/invoice_service.py: a tenant's invoices, by state and by pages.
use tenant_billing_service.Base.{
  ℕ, ◌+◌, ◌≤◌, ◌≡◌, refl, ap, String, Bool, true, false, ◌&&◌, Option, none, some, List, [], ◌∷◌,
  ◌++◌, map, arith, ◌==◌, ==_iff, leb, str_eq, length, count, select, All, page, page-page, sort_by,
  All-take, All-drop, All-sort, All-select, InOrder, InOrder-sort, InOrder-take, InOrder-drop,
  length-take_le, count-length, if◌then◌else◌,
}
use tenant_billing_service.Errors.{ok}
use tenant_billing_service.Model.Invoice.{
  Invoice, InvoiceState, value, draft, open_, paid, void, uncollectible,
}
use tenant_billing_service.Model.Tenant.{Business}
use tenant_billing_service.Model.Db.{Db}
use tenant_billing_service.Session.{Session, Action, query}
use tenant_billing_service.Invoices.{LoadedInvoice, line_item_of}

-- `if state:` and the comparison; a missing or empty filter takes every state.
abbrev pub in_state : Option String → Invoice → Bool
in_state none invoice = true
in_state (some state) invoice = if str_eq state "" then true else str_eq (value invoice.state) state

-- `base_query`
abbrev pub is_listed : Business → Option String → Invoice → Bool
is_listed business state invoice = invoice.business_id == business.id && in_state state invoice

-- `order_by(Invoice.created_at.desc())`
abbrev pub is_newer : Invoice → Invoice → Bool
is_newer x y = leb y.created_at x.created_at

abbrev pub loaded : Db → Invoice → LoadedInvoice
loaded db invoice = record {
  invoice = invoice;
  line_items = select (line_item_of invoice.id) db.invoice_line_items;
}

unfoldable pub listed : Business → Option String → Db → List Invoice
listed business state db = sort_by is_newer (select (is_listed business state) db.invoices)

unfoldable pub list_invoices : Business → Option String → ℕ → ℕ → Action (List LoadedInvoice × ℕ)
list_invoices business state skip limit = query (λ db. (
  map (loaded db) (page skip limit (listed business state db)),
  count (is_listed business state) db.invoices,
))

is_newer_total : (x y : Invoice) → is_newer x y ≡ false → is_newer y x ≡ true
is_newer_total x y h = ground arith

is_newer_trans : (x y z : Invoice) → is_newer x y ≡ true → is_newer y z ≡ true → is_newer x z ≡ true
is_newer_trans x y z h k = ground arith

map-append :
    (db : Db) (xs ys : List Invoice)
    → map (loaded db) (xs ++ ys) ≡ map (loaded db) xs ++ map (loaded db) ys
map-append db [] ys = refl
map-append db (x ∷ xs) ys = ap (λ r. loaded db x ∷ r) (map-append db xs ys)

abbrev one_if : Bool → ℕ
one_if b = if b then 1 else 0

-- An invoice is listed under the name of exactly one state.
names_once :
    (t : InvoiceState)
    → one_if (str_eq (value t) "draft")
        + (one_if (str_eq (value t) "open")
            + (one_if (str_eq (value t) "paid")
                + (one_if (str_eq (value t) "void") + one_if (str_eq (value t) "uncollectible"))))
      ≡ 1
names_once draft = refl
names_once open_ = refl
names_once paid = refl
names_once void = refl
names_once uncollectible = refl

states :
    (business : Business) (rows : List Invoice)
    → count (is_listed business none) rows
      ≡ count (is_listed business (some "draft")) rows
        + (count (is_listed business (some "open")) rows
            + (count (is_listed business (some "paid")) rows
                + (count (is_listed business (some "void")) rows
                    + count (is_listed business (some "uncollectible")) rows)))
states business [] = refl
states business (x ∷ rows) = ground (arith, states business rows, names_once x.state)

module _ (business : Business) (s : Session) where
  -- On any session, a listing of invoices changes nothing, and returns with its line items a page
  -- of at most `limit` rows, all of the business and in the state that is asked for, newest first,
  -- and as the total the number of all such invoices.
  pub list_invoices_lem :
      (state : Option String) (skip limit : ℕ)
      → let rows = page skip limit (listed business state s.working) in
        (list_invoices business state skip limit s ≡ (
          ok (
            map (loaded s.working) rows,
            length (select (is_listed business state) s.working.invoices),
          ),
          s,
        ))
        × (length rows ≤ limit)
        × All (λ i. (i.business_id ≡ business.id) × (in_state state i ≡ true)) rows
        × InOrder is_newer rows
  unfolding list_invoices listed
  list_invoices_lem state skip limit =
      let own = select (is_listed business state) s.working.invoices in
      let sorted = sort_by is_newer own in
      let P = λ (i : Invoice). (i.business_id ≡ business.id) × (in_state state i ≡ true) in
      (
        rw (count-length (is_listed business state) s.working.invoices) refl,
        length-take_le limit _,
        All-take P limit _ (
            All-drop P skip sorted (
              All-sort is_newer P own (
                All-select P (is_listed business state)
                  (λ i h. ((==_iff i.business_id business.id).0 (ground arith), ground arith))
                  s.working.invoices))),
        InOrder-take is_newer limit _ (
            InOrder-drop is_newer skip sorted
              (InOrder-sort is_newer is_newer_total is_newer_trans own)),
      )

  -- If two requests for neighbouring pages and one for both pages at once succeed on the same
  -- tables, then the rows of the first two together are the rows of the third, and all three
  -- report the same total.
  list_invoices-pages :
      (state : Option String) (skip n m : ℕ)
      → (first second whole : List LoadedInvoice) (total₁ total₂ total : ℕ)
      → list_invoices business state skip n s ≡ (ok (first, total₁), s)
      → list_invoices business state (skip + n) m s ≡ (ok (second, total₂), s)
      → list_invoices business state skip (n + m) s ≡ (ok (whole, total), s)
      → (first ++ second ≡ whole) × (total₁ ≡ total) × (total₂ ≡ total)
  unfolding list_invoices
  list_invoices-pages state skip n m first second whole total₁ total₂ total e₁ e₂ e =
      let rows = listed business state s.working in
      ground (
        arith,
        map-append s.working (page skip n rows) (page (skip + n) m rows),
        page-page skip n m rows,
      )

  -- The number of all invoices of a business is the sum of the numbers that are listed under the
  -- five states.
  pub list_invoices-states :
      let total = λ (state : Option String). count (is_listed business state) s.working.invoices in
      total none
      ≡ total (some "draft")
        + (total (some "open")
            + (total (some "paid") + (total (some "void") + total (some "uncollectible"))))
  list_invoices-states = states business s.working.invoices
