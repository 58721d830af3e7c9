-- ===== src/Tests.antt =====
-- Runs on concrete inputs.
mod Toy
mod ToyLink
mod Links
mod Binaries
mod Creates
mod Serves
mod Made
mod Separates
mod Witnesses
