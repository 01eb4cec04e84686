-- ===== src/Lease/Keeping.antt =====
-- The operations on leases of src/adapters/sqs/lease.rs keep their ids and tokens apart.
use beave_rs.Base.{nat_eq}
use beave_rs.Base.Map.{Map}
use beave_rs.Token.{Token, is_cancelled, is_cancelled-cancel}
use beave_rs.Token
use beave_rs.Lease.{Lease}
