-- ===== src/Examples.antt =====
-- Concrete inputs, the theorems at them, and tests.
pub mod Instances
pub mod ChainCase
pub mod VmCase
pub mod WarpCase
pub mod ClientCase
pub mod CacheCase
pub mod LimitsCase
pub mod DatabaseCase
pub mod JsonrpcCase
pub mod HttpCase
pub mod RpcCase
pub mod CallsCase
pub mod StartCase
pub mod SizedCase
pub mod ServerCase
