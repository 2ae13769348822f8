-- ===== src/Routers/Customers.antt =====
-- app/routers/customers.py: customers over HTTP.
use tenant_billing_service.Base.{ℕ, String, List}
use tenant_billing_service.Errors.{Result, ok, err, conflict, not_found}
use tenant_billing_service.Model.Tenant.{Business, Customer}
use tenant_billing_service.Session.{Session}
use tenant_billing_service.World.{Draws}
use tenant_billing_service.Customers.{create_customer, get_customer, list_customers}
use tenant_billing_service.Routers.Payments.{Answer, respond, http_exception, uncaught}
use tenant_billing_service.Routers.Invoices.{and_commit, answer_page}

unfoldable pub answer_customer : Result Customer → Answer Customer
answer_customer (ok c) = respond 201 c
answer_customer (err (conflict message)) = http_exception 409 message
answer_customer (err e) = uncaught e

unfoldable pub post_customer :
    Draws → Business → String → String → Session → Answer Customer × Session
post_customer d business name email =
    and_commit (create_customer d business name email) answer_customer

unfoldable pub answer_found_customer : Result Customer → Answer Customer
answer_found_customer (ok c) = respond 200 c
answer_found_customer (err (not_found resource resource_id)) =
    http_exception 404 "Customer not found for this business"
answer_found_customer (err e) = uncaught e

unfoldable pub read_customer : Business → ℕ → Session → Answer Customer × Session
read_customer business customer_id s =
    let (r, s') = get_customer business customer_id s in (answer_found_customer r, s')

unfoldable pub read_customers : Business → ℕ → ℕ → Session → Answer (List Customer × ℕ) × Session
read_customers business skip limit s =
    let (r, s') = list_customers business skip limit s in (answer_page r, s')
