-- ===== src/Api.antt =====
-- The custom resources of api/v1alpha1. A `*T` is an `Option T`; an absent string is "".
pub mod Profile
pub mod Device
pub mod Server
