-- ===== src/Model/Tenant.antt =====
-- app/models/business.py and app/models/customer.py: tenants, their API keys and customers.
use tenant_billing_service.Base.{ℕ, String, Bool, Option}

pub record Business : Type 0 where
  pub id : ℕ
  pub name : String
  pub created_at : ℕ
  pub updated_at : ℕ

pub record ApiKey : Type 0 where
  pub id : ℕ
  pub business_id : ℕ
  pub key_hash : String
  pub key_prefix : String
  pub is_active : Bool
  pub created_at : ℕ
  pub revoked_at : Option ℕ

pub record Customer : Type 0 where
  pub id : ℕ
  pub business_id : ℕ
  pub name : String
  pub email : String
  pub created_at : ℕ
  pub updated_at : ℕ
