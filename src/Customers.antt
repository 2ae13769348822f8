-- ===== src/Customers.antt =====
-- app/services/customer_service.py: the customers of a tenant.
pub mod Laws
use Prim.Native.String.{◌++◌ as ◌+text+◌}
use tenant_billing_service.Base.{
  ℕ, String, Bool, true, false, Option, none, some, List, [], ◌∷◌, ◌++◌, ◌&&◌, ◌==◌, leb, any,
  count, select, str_eq, if◌then◌else◌, sort_by, page,
}
use tenant_billing_service.Errors.{
  Result, ok, err, AppError, conflict, not_found, database, integrity, data_error, Constraint,
  customers_pkey, uq_customers_business_email,
}
use tenant_billing_service.Model.Tenant.{Business, Customer}
use tenant_billing_service.Model.Db.{Db}
use tenant_billing_service.Session.{
  Session, Action, pure, raise, lift, query, write, rollback, scalar_one_or_none, ◌>>=◌, ◌>>◌,
}
use tenant_billing_service.World.{World, Draws}
use tenant_billing_service.Invoices.{find_customers}

abbrev pub has_customer_id : ℕ → Customer → Bool
has_customer_id id c = c.id == id

-- The columns of the UNIQUE constraint.
abbrev pub has_email : ℕ → String → Customer → Bool
has_email business_id email c = c.business_id == business_id && str_eq c.email email

abbrev pub of_business : ℕ → Customer → Bool
of_business business_id c = c.business_id == business_id

abbrev pub new_customer : Draws → Business → String → String → Customer
new_customer d business name email = record {
  id = d.uuid 0;
  business_id = business.id;
  name = name;
  email = email;
  created_at = d.clock 0;
  updated_at = d.clock 0;
}

-- The INSERT of the flush. Both constraints are answered alike by the only caller.
unfoldable pub insert_customer : Customer → Action (Unit {0})
insert_customer c s =
    if any (has_customer_id c.id) s.working.customers
    then raise (database (integrity customers_pkey)) s
    else if any (has_email c.business_id c.email) s.working.customers
    then raise (database (integrity uq_customers_business_email)) s
    else write (λ db. record db { customers = db.customers ++ c ∷ [] }) s

abbrev pub email_taken : String → String
email_taken email = "A customer with email '" +text+ (email +text+ "' already exists")

-- What follows the flush: the customer, or the handler of `except IntegrityError`.
abbrev pub after_insert : Customer → Result (Unit {0}) → Action Customer
after_insert c (ok _) = pure c
after_insert c (err (database (integrity k))) = rollback >> raise (conflict (email_taken c.email))
after_insert c (err e) = raise e

unfoldable pub create_customer : Draws → Business → String → String → Action Customer
create_customer d business name email s =
    let c = new_customer d business name email in
    let (r, s') = insert_customer c s in after_insert c r s'

abbrev pub customer_or_missing : ℕ → Option Customer → Action Customer
customer_or_missing customer_id none = raise (not_found "Customer" (some customer_id))
customer_or_missing customer_id (some c) = pure c

unfoldable pub get_customer : Business → ℕ → Action Customer
get_customer business customer_id = do
  rows ← query (find_customers business.id customer_id)
  customer ← lift (scalar_one_or_none rows)
  customer_or_missing customer_id customer

-- `order_by(Customer.created_at.desc())`
abbrev pub is_newer : Customer → Customer → Bool
is_newer x y = leb y.created_at x.created_at

-- The page, and the count of all the rows that it is taken from.
unfoldable pub list_customers : Business → ℕ → ℕ → Action (List Customer × ℕ)
list_customers business skip limit = query (λ db. (
  page skip limit (sort_by is_newer (select (of_business business.id) db.customers)),
  count (of_business business.id) db.customers,
))
