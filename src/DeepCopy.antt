-- ===== src/DeepCopy.antt =====
-- The `DeepCopyInto` functions of apis/v1alpha1/zz_generated.deepcopy.go and
-- apis/v1beta1/zz_generated.deepcopy.go.
pub mod Memory
pub mod Copying
pub mod Stores
pub mod Daemons
pub mod Projects
pub mod Configs
pub mod Kinds
pub mod Parts
pub mod Providers
pub mod Independence
pub mod Lists
