-- ===== src/WorldMap.antt =====
-- The world map, dashboard/src/components/map/WorldThreatMap.tsx. The projection of d3-geo and the
-- decoding of the atlas are arguments.
pub mod Atlas
pub mod Loading
pub mod Views
pub mod Paths
pub mod Arcs
pub mod Targets
pub mod Memo
pub mod Stale
