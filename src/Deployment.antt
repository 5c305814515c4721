-- ===== src/Deployment.antt =====
-- extras/k8s/src: the two ways to bring out a release.
pub mod BlueGreen
pub mod Canary
mod Tests
